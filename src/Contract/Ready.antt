-- ===== src/Contract/Ready.antt =====
-- The setup of a contract leads to a deposit (from process_deposit_setup to
-- process_deposit_confirmation of crates/duty-tracker/src/contract_state_machine.rs).
use strata_bridge.Prelude.{
  ℕ, none, some, List, [], ◌∷◌, ◌≡◌, ◌⊎◌, inl, inr, refl, sym, ◌∙◌, arith, Option-cases,
}
use strata_bridge.Prelude.BTreeMap.{get}
use strata_bridge.Bitcoin.{Transaction}
use strata_bridge.PegOutGraph.{PegOutGraphInput, PegOutGraphSummary}
use strata_bridge.Contract.Types.{
  ContractCfg, Deposited, deposited, Requested, ContractState, ContractSm, requested,
}
use strata_bridge.Contract.Duties.{
  ContractEvent, deposit_setup, graph_nonces, graph_sigs, aggregated_sigs, root_nonce, root_sig,
  assignment, deposit_confirmation, peg_out_graph_confirmation, block, claim_failure,
  assertion_failure, Calls, accepted,
}
use strata_bridge.Contract.Keeps.{graphs_of, request_of}
use strata_bridge.Contract.Gathering.{
  process_graph_nonces-Gathers, process_graph_signatures-Gathers, process_aggregate_sigs-Gathers,
  process_root_nonce-Gathers, process_root_signature-Gathers,
}
use strata_bridge.Contract.Confirms.{after, after-to_duties}
use strata_bridge.Contract.Progress.{run, later_event-request_of}
use strata_bridge.Contract.State
use strata_bridge.Contract.Chain.{set_state, deposit_txid}
use strata_bridge.Contract.Partials.{process_graph_signatures}
use strata_bridge.Contract.Root.{process_root_nonce, process_root_signature}
use strata_bridge.Contract.Machine.{
  new, clear_pog_cache, process_deposit_confirmation, process_contract_event,
}
use strata_bridge.Contract.Deposit.{IsDistinct, process_deposit_confirmation-deposited}
use strata_bridge.Contract.Claims.{IsSetUp-IsReady, IsSetUpState, process_deposit_setup-IsSetUp}

graphs_of-IsSetUp :
    (st st' : ContractState) → graphs_of st' ≡ graphs_of st → IsSetUpState st → IsSetUpState st'
graphs_of-IsSetUp st st' same w = λ t at. elim (Option-cases (request_of st)) [
  | inl e ↦ absurd (ground arith)
  | inr (s, e) ↦
      let old = w s e in
      let inputs : t.peg_out_graph_inputs ≡ s.peg_out_graph_inputs = ground arith in
      let graphs : t.peg_out_graph_summaries ≡ s.peg_out_graph_summaries = ground arith in
      let claims : t.claim_txids ≡ s.claim_txids = ground arith in rw (inputs, graphs, claims) old
]

request_of-IsSetUp :
    (st st' : ContractState)
    → (request_of st' ≡ request_of st) ⊎ (request_of st' ≡ none)
    → IsSetUpState st
    → IsSetUpState st'
request_of-IsSetUp st st' (inl same) w = λ t at. w t (sym same ∙ at)
request_of-IsSetUp st st' (inr over) w = λ t at. absurd (cc)

process_contract_event-IsSetUp :
    (calls : Calls) (ev : ContractEvent) (sm sm' : ContractSm)
    → after (process_contract_event calls ev sm) ≡ some sm'
    → IsSetUpState sm.state.state
    → IsSetUpState sm'.state.state
unfolding process_contract_event
process_contract_event-IsSetUp calls (deposit_setup signer btc_key stake_hash stake_txid wots_keys)
      sm sm' h w =
    process_deposit_setup-IsSetUp calls signer btc_key stake_hash stake_txid wots_keys sm sm' w h
process_contract_event-IsSetUp calls (graph_nonces signer claim_txid nonces) sm sm' h w =
    graphs_of-IsSetUp sm.state.state sm'.state.state
      (process_graph_nonces-Gathers calls sm sm' signer claim_txid nonces h).1 w
process_contract_event-IsSetUp calls (graph_sigs signer claim_txid partial_sigs) sm sm' h w =
    graphs_of-IsSetUp sm.state.state sm'.state.state
      (process_graph_signatures-Gathers calls sm sm' signer claim_txid partial_sigs (
        sym (after-to_duties (process_graph_signatures calls signer claim_txid partial_sigs sm))
        ∙ h)).1
      w
process_contract_event-IsSetUp calls (aggregated_sigs sigs) sm sm' h w =
    graphs_of-IsSetUp sm.state.state sm'.state.state
      (process_aggregate_sigs-Gathers calls sm sm' sigs h).1 w
process_contract_event-IsSetUp calls (root_nonce signer nonce) sm sm' h w =
    graphs_of-IsSetUp sm.state.state sm'.state.state
      (process_root_nonce-Gathers calls sm sm' signer nonce
        (sym (after-to_duties (process_root_nonce calls signer nonce sm)) ∙ h)).1
      w
process_contract_event-IsSetUp calls (root_sig signer sig) sm sm' h w =
    graphs_of-IsSetUp sm.state.state sm'.state.state
      (process_root_signature-Gathers calls sm sm' signer sig
        (sym (after-to_duties (process_root_signature calls signer sig sm)) ∙ h)).1
      w
process_contract_event-IsSetUp calls (deposit_confirmation tx) sm sm' h w =
    request_of-IsSetUp sm.state.state sm'.state.state
      (later_event-request_of calls (deposit_confirmation tx) sm sm' refl h) w
process_contract_event-IsSetUp calls (assignment entry stake_tx height) sm sm' h w =
    request_of-IsSetUp sm.state.state sm'.state.state
      (later_event-request_of calls (assignment entry stake_tx height) sm sm' refl h) w
process_contract_event-IsSetUp calls (peg_out_graph_confirmation tx height) sm sm' h w =
    request_of-IsSetUp sm.state.state sm'.state.state
      (later_event-request_of calls (peg_out_graph_confirmation tx height) sm sm' refl h) w
process_contract_event-IsSetUp calls (block height) sm sm' h w =
    request_of-IsSetUp sm.state.state sm'.state.state
      (later_event-request_of calls (block height) sm sm' refl h) w
process_contract_event-IsSetUp calls claim_failure sm sm' h w =
    request_of-IsSetUp sm.state.state sm'.state.state
      (later_event-request_of calls claim_failure sm sm' refl h) w
process_contract_event-IsSetUp calls assertion_failure sm sm' h w =
    request_of-IsSetUp sm.state.state sm'.state.state
      (later_event-request_of calls assertion_failure sm sm' refl h) w

run-IsSetUp :
    (calls : Calls) (evs : List ContractEvent) (sm sm' : ContractSm)
    → IsSetUpState sm.state.state
    → run calls evs sm ≡ some sm'
    → IsSetUpState sm'.state.state
unfolding run
run-IsSetUp calls [] sm sm' w h = let e : sm' ≡ sm = ground arith in rw e w
run-IsSetUp calls (ev ∷ evs) sm sm' w h =
    elim (Option-cases (after (process_contract_event calls ev sm))) [
      | inl crash ↦ absurd (ground arith)
      | inr (mid, e) ↦
          run-IsSetUp calls evs mid sm' (process_contract_event-IsSetUp calls ev sm mid e w)
            (ground arith)
    ]

new-IsSetUp :
    (cfg : ContractCfg) (height deadline : ℕ) (sm : ContractSm)
    → new cfg height deadline ≡ some sm
    → IsSetUpState sm.state.state
unfolding new State.new get
new-IsSetUp cfg height deadline sm h = λ s at. record {
  sorted = let e : s.claim_txids ≡ [] = ground arith in rw e tt;
  with_input = λ key claim_txid at'. absurd (ground arith);
  with_summary = λ key claim_txid at'. absurd (ground arith);
}

-- A new contract takes any events, the messages of the setup in any order among them, and is still a
-- request, in which no two operators share a claim. Then the confirmation of its deposit does not
-- panic, and leaves a deposited contract with the request's claims, in which each claim has the graph of the input and the
-- summary that were set up for its operator.
pub run-deposited :
    (calls : Calls) (cfg : ContractCfg) (height deadline : ℕ) (evs : List ContractEvent)
    (start sm : ContractSm) (s : Requested) (tx : Transaction) (key claim_txid : ℕ)
    → new cfg height deadline ≡ some start
    → run calls evs start ≡ some sm
    → sm.state.state ≡ requested s
    → IsDistinct s.claim_txids
    → calls.compute_txid tx ≡ deposit_txid calls sm
    → get key s.claim_txids ≡ some claim_txid
    → (d : Deposited) × (input : PegOutGraphInput) × (summary : PegOutGraphSummary)
      × (process_deposit_confirmation calls tx sm
          ≡ accepted none (clear_pog_cache (set_state sm (deposited d))))
      × (d.claim_txids ≡ s.claim_txids)
      × (get key s.peg_out_graph_inputs ≡ some input)
      × (get claim_txid s.peg_out_graph_summaries ≡ some summary)
      × (get claim_txid d.peg_out_graphs ≡ some (input, summary))
run-deposited calls cfg height deadline evs start sm s tx key claim_txid started h at distinct
      is_deposit at_claim =
    let w =
      run-IsSetUp calls evs start sm (new-IsSetUp cfg height deadline start started) h s
        (ground arith) in
    elim (Option-cases (get key s.peg_out_graph_inputs)) [
      | inl e ↦ absurd (w.with_input key claim_txid at_claim e)
      | inr (input, e) ↦ elim (Option-cases (get claim_txid s.peg_out_graph_summaries)) [
        | inl f ↦ absurd (w.with_summary key claim_txid at_claim f)
        | inr (summary, f) ↦
            let ready =
              IsSetUp-IsReady s.peg_out_graph_inputs s.peg_out_graph_summaries s.claim_txids 0
                w.sorted w.with_input w.with_summary in
            let (d, left, claims, graph) =
              process_deposit_confirmation-deposited calls tx sm s key claim_txid input summary at
                is_deposit w.sorted distinct ready at_claim e f in
            (d, input, summary, left, claims, e, f, graph)
      ]
    ]
