-- ===== src/Contract/Claims.antt =====
-- The graphs of a contract that is being set up (process_deposit_setup of
-- crates/duty-tracker/src/contract_state_machine.rs).
use strata_bridge.Prelude.{
  ℕ, suc, none, some, [], ◌∷◌, ◌≡◌, ◌≢◌, ◌⊎◌, inl, inr, refl, arith, Option-cases, Bool-cases, ◌==◌,
  length,
}
use strata_bridge.Prelude.BTreeMap.{
  BTreeMap, get, insert, collect, collect_from, Above, IsSorted, Above-get-none, get-insert,
  insert-IsSorted,
}
use strata_bridge.Operators.{cardinality}
use strata_bridge.PegOutGraph.{PegOutGraphInput, PegOutGraphSummary, PegOutGraph, summarize}
use strata_bridge.Contract.Types.{ContractCfg, Requested, ContractState, ContractSm}
use strata_bridge.Contract.Duties.{Calls}
use strata_bridge.Contract.Setup.{
  retrieve_graph, retrieve_all, generate_all, setup_graphs, input_of, add_graphs, setup_all,
  process_deposit_setup,
}
use strata_bridge.Contract.Keeps.{request_of}
use strata_bridge.Contract.Confirms.{after}
use strata_bridge.Contract.Deposit.{IsReady}

-- Claims are in the order of their operators, and each has the input of its operator and its
-- summary.
pub record IsSetUp (inputs : BTreeMap PegOutGraphInput) (graphs : BTreeMap PegOutGraphSummary)
    (claims : BTreeMap ℕ) : Type 0 where
  pub sorted : IsSorted claims
  pub with_input : (key claim_txid : ℕ) → get key claims ≡ some claim_txid → get key inputs ≢ none
  pub with_summary :
      (key claim_txid : ℕ) → get key claims ≡ some claim_txid → get claim_txid graphs ≢ none

pub IsSetUp-IsReady :
    (inputs : BTreeMap PegOutGraphInput) (graphs : BTreeMap PegOutGraphSummary)
    (claims : BTreeMap ℕ) (lo : ℕ)
    → Above lo claims
    → ((key claim_txid : ℕ) → get key claims ≡ some claim_txid → get key inputs ≢ none)
    → ((key claim_txid : ℕ) → get key claims ≡ some claim_txid → get claim_txid graphs ≢ none)
    → IsReady inputs graphs claims
unfolding get
IsSetUp-IsReady inputs graphs [] lo s i g = tt
IsSetUp-IsReady inputs graphs ((k, c) ∷ claims) lo s i g = (
  i k c (ground arith),
  g k c (ground arith),
  IsSetUp-IsReady inputs graphs claims (suc k) s.1
      (λ key claim_txid at.
        i key claim_txid (ground (arith, Above-get-none (suc k) key claims s.1)))
      (λ key claim_txid at.
        g key claim_txid (ground (arith, Above-get-none (suc k) key claims s.1))),
)

add_graphs-IsSetUp :
    (calls : Calls) (graphs : BTreeMap PegOutGraph) (s s' : Requested)
    → ((k : ℕ) → get k graphs ≢ none → get k s.peg_out_graph_inputs ≢ none)
    → IsSetUp s.peg_out_graph_inputs s.peg_out_graph_summaries s.claim_txids
    → add_graphs calls graphs s ≡ some s'
    → IsSetUp s'.peg_out_graph_inputs s'.peg_out_graph_summaries s'.claim_txids
unfolding add_graphs get
add_graphs-IsSetUp calls [] s s' within w h = let e : s' ≡ s = ground arith in rw e w
add_graphs-IsSetUp calls ((signer, graph) ∷ graphs) s s' within w h =
    elim (Option-cases (summarize calls.compute_txid graph)) [
      | inl e ↦ absurd (ground arith)
      | inr (summary, e) ↦
          add_graphs-IsSetUp calls graphs
            (record s {
              peg_out_graph_summaries = insert summary.claim_txid summary s.peg_out_graph_summaries;
              claim_txids = insert signer summary.claim_txid s.claim_txids;
              graph_nonces = insert summary.claim_txid [] s.graph_nonces;
              graph_partials = insert summary.claim_txid [] s.graph_partials;
            })
            s' (λ k present. within k (ground (arith, present)))
            (record {
              sorted = insert-IsSorted signer summary.claim_txid s.claim_txids w.sorted;
              with_input = λ key claim_txid at. ground (
                arith,
                within signer,
                w.with_input key claim_txid,
                get-insert signer key summary.claim_txid s.claim_txids,
              );
              with_summary = λ key claim_txid at. ground (
                arith,
                w.with_summary key claim_txid,
                get-insert signer key summary.claim_txid s.claim_txids,
                get-insert summary.claim_txid claim_txid summary s.peg_out_graph_summaries,
              );
            })
            (ground arith)
    ]

-- The graphs that are set up belong to operators with an input.
get-collect_from-cases :
    (m entries : BTreeMap PegOutGraph) (k : ℕ)
    → get k (collect_from m entries) ≢ none
    → (get k m ≢ none) ⊎ (get k entries ≢ none)
unfolding collect_from get
get-collect_from-cases m [] k h = inl h
get-collect_from-cases m ((j, g) ∷ entries) k h =
    elim (get-collect_from-cases (insert j g m) entries k h) [
      | inr later ↦ inr (ground (arith, later))
      | inl earlier ↦ elim (Bool-cases (j == k)) [
        | inl e ↦ inr (ground arith)
        | inr e ↦ inl (ground (arith, earlier, get-insert j k g m))
      ]
    ]

get-collect_present :
    (entries : BTreeMap PegOutGraph) (k : ℕ) → get k (collect entries) ≢ none → get k entries ≢ none
unfolding collect get
get-collect_present entries k h = elim (get-collect_from-cases [] entries k h) [
  | inl e ↦ absurd (e refl)
  | inr e ↦ e
]

generate_all-get :
    (calls : Calls) (cfg : ContractCfg) (inputs : BTreeMap PegOutGraphInput) (k : ℕ)
    → get k (generate_all calls cfg inputs) ≢ none
    → get k inputs ≢ none
unfolding get
generate_all-get calls cfg [] k h = absurd (h refl)
generate_all-get calls cfg ((signer, input) ∷ inputs) k h =
    ground (arith, h, generate_all-get calls cfg inputs k)

retrieve_all-get :
    (calls : Calls) (inputs : BTreeMap PegOutGraphInput) (sm : ContractSm) (k : ℕ)
    → get k (retrieve_all calls inputs sm).0 ≢ none
    → get k inputs ≢ none
unfolding get retrieve_all
retrieve_all-get calls [] sm k h = absurd (h refl)
retrieve_all-get calls ((signer, input) ∷ inputs) sm k h =
    ground (arith, h, retrieve_all-get calls inputs (retrieve_graph calls input sm).1 k)

setup_graphs-get :
    (calls : Calls) (inputs : BTreeMap PegOutGraphInput) (sm : ContractSm) (k : ℕ)
    → get k (setup_graphs calls inputs sm).0 ≢ none
    → get k inputs ≢ none
unfolding setup_graphs
setup_graphs-get calls inputs sm k h = elim (Bool-cases calls.multi_thread_graph_gen) [
  | inl e ↦
      generate_all-get calls sm.cfg inputs k
        (get-collect_present (generate_all calls sm.cfg inputs) k (ground (arith, h)))
  | inr e ↦
      retrieve_all-get calls inputs sm k
        (get-collect_present (retrieve_all calls inputs sm).0 k (ground (arith, h)))
]

insert-get_present :
    (j k : ℕ) (input : PegOutGraphInput) (inputs : BTreeMap PegOutGraphInput)
    → get k inputs ≢ none
    → get k (insert j input inputs) ≢ none
insert-get_present j k input inputs h = λ absent. ground (arith, h, get-insert j k input inputs)

-- A request is set up; other states have nothing to be set up.
abbrev pub IsSetUpState : ContractState → Type 0
IsSetUpState st =
    (s : Requested)
    → request_of st ≡ some s
    → IsSetUp s.peg_out_graph_inputs s.peg_out_graph_summaries s.claim_txids

setup_all-IsSetUp :
    (calls : Calls) (s : Requested) (sm sm' : ContractSm)
    → IsSetUp s.peg_out_graph_inputs s.peg_out_graph_summaries s.claim_txids
    → after (setup_all calls s sm) ≡ some sm'
    → IsSetUpState sm'.state.state
unfolding setup_all
setup_all-IsSetUp calls s sm sm' w h = λ t at.
    elim (Option-cases (add_graphs calls (setup_graphs calls s.peg_out_graph_inputs sm).0 s)) [
      | inl crash ↦ absurd (ground arith)
      | inr (s', e) ↦
          let same : t ≡ s' = ground arith in
          rw same (
            add_graphs-IsSetUp calls (setup_graphs calls s.peg_out_graph_inputs sm).0 s s'
              (setup_graphs-get calls s.peg_out_graph_inputs sm) w e)
    ]

pub process_deposit_setup-IsSetUp :
    (calls : Calls) (signer operator_pubkey stake_hash stake_txid wots_keys : ℕ)
    (sm sm' : ContractSm)
    → IsSetUpState sm.state.state
    → after (process_deposit_setup calls signer operator_pubkey stake_hash stake_txid wots_keys sm)
      ≡ some sm'
    → IsSetUpState sm'.state.state
unfolding process_deposit_setup
process_deposit_setup-IsSetUp calls signer operator_pubkey stake_hash stake_txid wots_keys sm sm' w
      h =
    elim (Option-cases (request_of sm.state.state)) [
      | inl e ↦ λ t at. absurd (ground arith)
      | inr (s, e) ↦
          let old = w s e in
          let input =
            input_of operator_pubkey stake_hash stake_txid wots_keys
              (get signer s.peg_out_graph_inputs) in
          let s' : Requested = record s {
            peg_out_graph_inputs = insert signer input s.peg_out_graph_inputs;
          } in
          let w' : IsSetUp s'.peg_out_graph_inputs s.peg_out_graph_summaries s.claim_txids =
            record {
              sorted = old.sorted;
              with_input = λ key claim_txid at.
                  insert-get_present signer key input s.peg_out_graph_inputs
                    (old.with_input key claim_txid at);
              with_summary = old.with_summary;
            } in
          elim (Bool-cases (length s'.peg_out_graph_inputs == cardinality sm.cfg.operator_table)) [
            | inl complete ↦ setup_all-IsSetUp calls s' sm sm' w' (ground arith)
            | inr waiting ↦ λ t at. let same : t ≡ s' = ground arith in rw same w'
          ]
    ]
