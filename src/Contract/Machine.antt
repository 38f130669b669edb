-- ===== src/Contract/Machine.antt =====
-- The contract state machine: its construction, the deposit, and the dispatch of an event
-- (crates/duty-tracker/src/contract_state_machine.rs).
use strata_bridge.Prelude.{ℕ, not, Option, none, some, List, [], ◌∷◌, ◌==◌, if◌then◌else◌}
use strata_bridge.Prelude.BTreeMap.{BTreeMap, get, remove, collect}
use strata_bridge.Bitcoin.{Transaction}
use strata_bridge.PegOutGraph.{PegOutGraphInput, PegOutGraphSummary}
use strata_bridge.Contract.Types.{
  Graph, ContractCfg, MachineState, ContractSm, requested, deposited, assigned, fulfilled, claimed,
  challenged, pre_assert_confirmed, assert_data_confirmed, asserted,
}
use strata_bridge.Contract.Duties.{
  ContractEvent, Outcome, Outcomes, to_duties, or_else, Calls, deposit_setup, graph_nonces,
  graph_sigs, aggregated_sigs, root_nonce, root_sig, assignment, deposit_confirmation,
  peg_out_graph_confirmation, block, claim_failure, assertion_failure, wrong_csm, unexpected_state,
  accepted, rejected, panicked,
}
use strata_bridge.Contract.State.{summaries}
use strata_bridge.Contract.State
use strata_bridge.Contract.Chain.{
  set_state, deposit_txid, process_fulfillment_confirmation, process_claim_confirmation,
  process_claim_verification_failure, process_challenge_confirmation,
  process_pre_assert_confirmation,
}
use strata_bridge.Contract.Assertion.{
  process_assert_data_confirmation, process_post_assert_confirmation,
  process_assertion_verification_failure, process_disprove_confirmation,
  process_optimistic_payout_confirmation, process_defended_payout_confirmation,
}
use strata_bridge.Contract.Height.{notify_new_block}
use strata_bridge.Contract.Setup.{deposit_request_txid, process_deposit_setup}
use strata_bridge.Contract.Nonces.{process_graph_nonces}
use strata_bridge.Contract.Partials.{process_graph_signatures, process_aggregate_sigs}
use strata_bridge.Contract.Root.{process_root_nonce, process_root_signature}
use strata_bridge.Contract.Assignment.{process_assignment}

unfoldable pub new : ContractCfg → (block_height abort_deadline : ℕ) → Option ContractSm
unfolding deposit_request_txid State.new
new cfg block_height abort_deadline = elim (deposit_request_txid cfg) [
  | none ↦ none
  | some txid ↦ some (record {
    cfg = cfg;
    state = record { block_height = block_height; state = State.new txid abort_deadline };
    pog = [];
  })
]

unfoldable pub restore : ContractCfg → MachineState → ContractSm
restore cfg state = record { cfg = cfg; state = state; pog = [] }

unfoldable pub clear_pog_cache : ContractSm → ContractSm
clear_pog_cache sm = record sm { pog = [] }

-- The closure of the `map` over the claims; `none` is the panic of an `expect`. What is taken out
-- for one claim is not there for the next.
unfoldable pub take_graphs :
    BTreeMap PegOutGraphInput → BTreeMap PegOutGraphSummary → BTreeMap ℕ → Option (List (ℕ × Graph))
unfolding get remove
take_graphs inputs graphs [] = some []
take_graphs inputs graphs ((key, claim_txid) ∷ claims) =
    let rest = take_graphs (remove key inputs) (remove claim_txid graphs) claims in
    elim (get key inputs) [
      | none ↦ none
      | some input ↦ elim (get claim_txid graphs) [
        | none ↦ none
        | some summary ↦ elim rest [
          | none ↦ none
          | some taken ↦ some ((claim_txid, (input, summary)) ∷ taken)
        ]
      ]
    ]

unfoldable pub process_deposit_confirmation : Calls → Transaction → ContractSm → Outcome
unfolding take_graphs clear_pog_cache collect
process_deposit_confirmation calls tx sm =
    if not (calls.compute_txid tx == deposit_txid calls sm)
    then rejected (wrong_csm (deposit_txid calls sm) (calls.compute_txid tx)) sm
    else elim sm.state.state [
      | requested s ↦
          elim (take_graphs s.peg_out_graph_inputs s.peg_out_graph_summaries s.claim_txids) [
            | none ↦ panicked
            | some graphs ↦ accepted none (
                clear_pog_cache (
                  set_state sm (
                    deposited (record {
                      peg_out_graphs = collect graphs;
                      claim_txids = s.claim_txids;
                      graph_sigs = s.graph_sigs;
                    }))))
          ]
      | _ ↦ rejected unexpected_state sm
    ]

unfoldable pub process_peg_out_graph_tx_confirmation :
    Calls → ℕ → Transaction → ContractSm → Outcome
process_peg_out_graph_tx_confirmation calls height tx sm = elim sm.state.state [
  | assigned s ↦ process_fulfillment_confirmation calls height tx sm
  | fulfilled s ↦ process_claim_confirmation calls height tx sm
  | claimed s ↦ or_else (process_challenge_confirmation calls tx sm) (λ sm.
      or_else (process_optimistic_payout_confirmation calls tx sm)
        (λ sm. process_pre_assert_confirmation calls tx sm))
  | challenged s ↦ process_pre_assert_confirmation calls tx sm
  | pre_assert_confirmed s ↦ process_assert_data_confirmation calls tx sm
  | assert_data_confirmed s ↦ process_post_assert_confirmation calls tx height sm
  | asserted s ↦
      or_else (process_disprove_confirmation calls tx sm)
        (λ sm. process_defended_payout_confirmation calls tx sm)
  | _ ↦ rejected unexpected_state sm
]

unfoldable pub process_contract_event : Calls → ContractEvent → ContractSm → Outcomes
unfolding process_peg_out_graph_tx_confirmation
process_contract_event calls (deposit_setup signer btc_key stake_hash stake_txid wots_keys) sm =
    process_deposit_setup calls signer btc_key stake_hash stake_txid wots_keys sm
process_contract_event calls (graph_nonces signer claim_txid nonces) sm =
    process_graph_nonces calls signer claim_txid nonces sm
process_contract_event calls (graph_sigs signer claim_txid partial_sigs) sm =
    to_duties (process_graph_signatures calls signer claim_txid partial_sigs sm)
process_contract_event calls (aggregated_sigs sigs) sm = process_aggregate_sigs sigs sm
process_contract_event calls (root_nonce signer nonce) sm =
    to_duties (process_root_nonce calls signer nonce sm)
process_contract_event calls (root_sig signer sig) sm =
    to_duties (process_root_signature calls signer sig sm)
process_contract_event calls (deposit_confirmation tx) sm =
    to_duties (process_deposit_confirmation calls tx sm)
process_contract_event calls (assignment entry stake_tx height) sm =
    to_duties (process_assignment calls entry stake_tx height sm)
process_contract_event calls (peg_out_graph_confirmation tx height) sm =
    to_duties (process_peg_out_graph_tx_confirmation calls height tx sm)
process_contract_event calls (block height) sm = to_duties (notify_new_block calls height sm)
process_contract_event calls claim_failure sm = to_duties (process_claim_verification_failure sm)
process_contract_event calls assertion_failure sm =
    to_duties (process_assertion_verification_failure sm)
