-- ===== src/Contract/Deposit.antt =====
-- The confirmation of a deposit (process_deposit_confirmation of
-- crates/duty-tracker/src/contract_state_machine.rs).
use strata_bridge.Prelude.{
  ℕ, suc, none, some, List, [], ◌∷◌, ◌≡◌, ◌≢◌, refl, arith, Option-cases, inl, inr,
}
use strata_bridge.Prelude.BTreeMap.{
  BTreeMap, get, remove, collect, Above, IsSorted, get-remove, Above-mono,
}
use strata_bridge.Prelude.Collect.{IsOnce, get-collect_from}
use strata_bridge.Bitcoin.{Transaction}
use strata_bridge.PegOutGraph.{PegOutGraphInput, PegOutGraphSummary}
use strata_bridge.Contract.Types.{Graph, Requested, Deposited, ContractSm, requested, deposited}
use strata_bridge.Contract.Duties.{Calls, accepted}
use strata_bridge.Contract.State.{find_operator}
use strata_bridge.Contract.Chain.{set_state, deposit_txid}
use strata_bridge.Contract.Machine.{clear_pog_cache, take_graphs, process_deposit_confirmation}

-- No two operators have the same claim.
abbrev pub IsDistinct : BTreeMap ℕ → Type 0
IsDistinct [] = Unit {0}
IsDistinct ((key, claim_txid) ∷ claims) =
    (find_operator claims claim_txid ≡ none) × IsDistinct claims

-- Each operator with a claim has its input, and each claim its summary.
abbrev pub IsReady : BTreeMap PegOutGraphInput → BTreeMap PegOutGraphSummary → BTreeMap ℕ → Type 0
IsReady inputs graphs [] = Unit {0}
IsReady inputs graphs ((key, claim_txid) ∷ claims) =
    (get key inputs ≢ none) × (get claim_txid graphs ≢ none) × IsReady inputs graphs claims

find_operator-get :
    (claims : BTreeMap ℕ) (key claim_txid : ℕ)
    → get key claims ≡ some claim_txid
    → find_operator claims claim_txid ≢ none
unfolding get find_operator
find_operator-get [] key claim_txid at = cc
find_operator-get ((k, c) ∷ claims) key claim_txid at =
    λ absent. ground (arith, find_operator-get claims key claim_txid)

remove-IsReady :
    (inputs : BTreeMap PegOutGraphInput) (graphs : BTreeMap PegOutGraphSummary) (key claim_txid : ℕ)
    → (claims : BTreeMap ℕ) → Above (suc key) claims
    → find_operator claims claim_txid ≡ none
    → IsReady inputs graphs claims
    → IsReady (remove key inputs) (remove claim_txid graphs) claims
unfolding find_operator
remove-IsReady inputs graphs key claim_txid [] s d r = tt
remove-IsReady inputs graphs key claim_txid ((k, c) ∷ claims) s d r = (
  ground (arith, r.0, get-remove key k inputs),
  ground (arith, r.1, get-remove claim_txid c graphs),
  remove-IsReady inputs graphs key claim_txid claims
      (Above-mono (suc key) (suc k) claims (omega (arith, s.0)) s.1) (ground arith) r.2,
)

take_graphs_total :
    (inputs : BTreeMap PegOutGraphInput) (graphs : BTreeMap PegOutGraphSummary)
    (claims : BTreeMap ℕ) (lo : ℕ)
    → Above lo claims
    → IsDistinct claims
    → IsReady inputs graphs claims
    → take_graphs inputs graphs claims ≢ none
unfolding take_graphs
take_graphs_total inputs graphs [] lo s d r = ground arith
take_graphs_total inputs graphs ((key, claim_txid) ∷ claims) lo s d r = ground (
  arith,
  r.0,
  r.1,
  take_graphs_total (remove key inputs) (remove claim_txid graphs) claims (suc key) s.1 d.1
      (remove-IsReady inputs graphs key claim_txid claims s.1 d.0 r.2),
)

take_graphs-find_operator :
    (inputs : BTreeMap PegOutGraphInput) (graphs : BTreeMap PegOutGraphSummary)
    (claims : BTreeMap ℕ)
    → (taken : List (ℕ × Graph)) (c : ℕ) → take_graphs inputs graphs claims ≡ some taken
    → find_operator claims c ≡ none
    → get c taken ≡ none
unfolding take_graphs find_operator get
take_graphs-find_operator inputs graphs [] taken c h absent = ground arith
take_graphs-find_operator inputs graphs ((key, claim_txid) ∷ claims) taken c h absent =
    elim (Option-cases (take_graphs (remove key inputs) (remove claim_txid graphs) claims)) [
      | inl stuck ↦ absurd (ground arith)
      | inr (rest, e) ↦ ground (
        arith,
        take_graphs-find_operator (remove key inputs) (remove claim_txid graphs) claims rest c e,
      )
    ]

take_graphs-IsOnce :
    (inputs : BTreeMap PegOutGraphInput) (graphs : BTreeMap PegOutGraphSummary)
    (claims : BTreeMap ℕ)
    → (taken : List (ℕ × Graph)) → take_graphs inputs graphs claims ≡ some taken
    → IsDistinct claims
    → IsOnce taken
unfolding take_graphs
take_graphs-IsOnce inputs graphs [] taken h d = let e : taken ≡ [] = ground arith in rw e tt
take_graphs-IsOnce inputs graphs ((key, claim_txid) ∷ claims) taken h d =
    elim (Option-cases (take_graphs (remove key inputs) (remove claim_txid graphs) claims)) [
      | inl stuck ↦ absurd (ground arith)
      | inr (rest, e) ↦ elim (Option-cases (get key inputs)) [
        | inl stuck ↦ absurd (ground arith)
        | inr (input, at_input) ↦ elim (Option-cases (get claim_txid graphs)) [
          | inl stuck ↦ absurd (ground arith)
          | inr (summary, at_summary) ↦
              let e' : taken ≡ (claim_txid, (input, summary)) ∷ rest = ground arith in
              rw e' (
                take_graphs-find_operator (remove key inputs) (remove claim_txid graphs) claims rest
                    claim_txid e d.0,
                take_graphs-IsOnce (remove key inputs) (remove claim_txid graphs) claims rest e d.1,
              )
        ]
      ]
    ]

take_graphs-get :
    (inputs : BTreeMap PegOutGraphInput) (graphs : BTreeMap PegOutGraphSummary)
    (claims : BTreeMap ℕ) (lo : ℕ)
    → (taken : List (ℕ × Graph)) (key claim_txid : ℕ) (input : PegOutGraphInput)
      (summary : PegOutGraphSummary)
    → Above lo claims
    → IsDistinct claims
    → take_graphs inputs graphs claims ≡ some taken
    → get key claims ≡ some claim_txid
    → get key inputs ≡ some input
    → get claim_txid graphs ≡ some summary
    → get claim_txid taken ≡ some (input, summary)
unfolding take_graphs get
take_graphs-get inputs graphs [] lo taken key claim_txid input summary s d h at at_input
      at_summary =
    cc
take_graphs-get inputs graphs ((k, c) ∷ claims) lo taken key claim_txid input summary s d h at
      at_input at_summary =
    elim (Option-cases (take_graphs (remove k inputs) (remove c graphs) claims)) [
      | inl stuck ↦ absurd (ground arith)
      | inr (rest, e) ↦ ground (
        arith,
        find_operator-get claims key claim_txid,
        get-remove k key inputs,
        get-remove c claim_txid graphs,
        take_graphs-get (remove k inputs) (remove c graphs) claims (suc k) rest key claim_txid input
            summary s.1 d.1 e,
      )
    ]

-- The deposit of a contract whose setup is complete is confirmed: each operator with a claim has its
-- input, each claim its summary, no two operators share a claim, and the operators are in the order of
-- their keys. Then the call does not panic,
-- and the contract is deposited with the claims it had, each claim's graph being the input and the
-- summary that were set up for the operator of the claim.
pub process_deposit_confirmation-deposited :
    (calls : Calls) (tx : Transaction) (sm : ContractSm) (s : Requested)
    → (key claim_txid : ℕ) (input : PegOutGraphInput) (summary : PegOutGraphSummary)
    → sm.state.state ≡ requested s
    → calls.compute_txid tx ≡ deposit_txid calls sm
    → IsSorted s.claim_txids
    → IsDistinct s.claim_txids
    → IsReady s.peg_out_graph_inputs s.peg_out_graph_summaries s.claim_txids
    → get key s.claim_txids ≡ some claim_txid
    → get key s.peg_out_graph_inputs ≡ some input
    → get claim_txid s.peg_out_graph_summaries ≡ some summary
    → (d : Deposited) × (process_deposit_confirmation calls tx sm
        ≡ accepted none (clear_pog_cache (set_state sm (deposited d))))
      × (d.claim_txids ≡ s.claim_txids)
      × (get claim_txid d.peg_out_graphs ≡ some (input, summary))
unfolding process_deposit_confirmation collect
process_deposit_confirmation-deposited calls tx sm s key claim_txid input summary at is_deposit
      sorted distinct ready at_claim at_input at_summary =
    elim (Option-cases
      (take_graphs s.peg_out_graph_inputs s.peg_out_graph_summaries s.claim_txids)) [
        | inl stuck ↦ absurd (
            take_graphs_total s.peg_out_graph_inputs s.peg_out_graph_summaries s.claim_txids 0
              sorted distinct ready stuck)
        | inr (taken, e) ↦ (
          record {
            peg_out_graphs = collect taken;
            claim_txids = s.claim_txids;
            graph_sigs = s.graph_sigs;
          },
          ground arith,
          refl,
          get-collect_from [] taken claim_txid (input, summary)
              (take_graphs-IsOnce s.peg_out_graph_inputs s.peg_out_graph_summaries s.claim_txids
                taken e distinct)
              (take_graphs-get s.peg_out_graph_inputs s.peg_out_graph_summaries s.claim_txids 0
                taken key claim_txid input summary sorted distinct e at_claim at_input at_summary),
        )
      ]
