-- ===== src/Contract/Chain.antt =====
-- The confirmations of the transactions of the peg-out graph, one handler for each
-- (crates/duty-tracker/src/contract_state_machine.rs). A handler that returns an error may have
-- changed the machine before, so an error carries the machine as well.
use strata_bridge.Prelude.{
  ℕ, Bool, true, false, not, Option, none, some, List, [], map, ◌==◌, if◌then◌else◌, Run, done,
}
use strata_bridge.Prelude.Array.{Array, take_array}
use strata_bridge.Bitcoin.{Transaction, TxOut}
use strata_bridge.PogMusig.{num_assert_data_tx}
use strata_bridge.Contract.Types.{
  PreAssertConfirmed, ContractState, ContractSm, assigned, fulfilled, claimed, challenged,
  pre_assert_confirmed,
}
use strata_bridge.Contract.Duties.{
  Outcome, Calls, publish_claim, publish_assert_data, verify_claim, publish_challenge,
  fulfiller_duty, verifier_duty, unexpected_state, invalid_tx, bad_witness, accepted, rejected,
  panicked,
}
use strata_bridge.Contract.Predicates.{is_challenge, is_fulfillment_tx}

abbrev pub set_state : ContractSm → ContractState → ContractSm
set_state sm s = record sm { state = record sm.state { state = s } }

abbrev pub is_pov : ContractSm → ℕ → Bool
is_pov sm fulfiller = fulfiller == sm.cfg.operator_table.pov

abbrev pub deposit_txid : Calls → ContractSm → ℕ
deposit_txid calls sm = calls.compute_txid sm.cfg.deposit_tx.unsigned_tx

unfoldable pub process_fulfillment_confirmation : Calls → ℕ → Transaction → ContractSm → Outcome
process_fulfillment_confirmation calls height tx sm = elim sm.state.state [
  | assigned s ↦
      elim (is_fulfillment_tx calls sm.cfg.network sm.cfg.peg_out_graph_params s.fulfiller
        sm.cfg.deposit_idx (deposit_txid calls sm) s.recipient tx) [
          | Run.panicked ↦ panicked
          | done false ↦ accepted none sm
          | done true ↦
              accepted
                (if is_pov sm s.fulfiller
                  then some (
                      fulfiller_duty (
                        publish_claim (calls.compute_txid tx) s.active_graph.1.stake_txid
                          (deposit_txid calls sm)))
                  else none)
                (set_state sm (
                  fulfilled (record {
                    peg_out_graphs = s.peg_out_graphs;
                    claim_txids = s.claim_txids;
                    graph_sigs = s.graph_sigs;
                    fulfiller = s.fulfiller;
                    active_graph = s.active_graph;
                    withdrawal_request_txid = s.withdrawal_request_txid;
                    withdrawal_fulfillment_txid = calls.compute_txid tx;
                    withdrawal_fulfillment_height = height;
                    l1_start_height = s.l1_start_height;
                  })))
        ]
  | _ ↦ rejected unexpected_state sm
]

unfoldable pub process_claim_confirmation : Calls → ℕ → Transaction → ContractSm → Outcome
process_claim_confirmation calls height tx sm = elim sm.state.state [
  | fulfilled s ↦
      if not (calls.compute_txid tx == s.active_graph.1.claim_txid)
      then rejected (invalid_tx (calls.compute_txid tx)) sm
      else elim (calls.parse_claim_witness tx) [
        | none ↦ rejected bad_witness sm
        | some commitment ↦
            accepted
              (if not (is_pov sm s.fulfiller) then some (verifier_duty verify_claim) else none)
              (set_state sm (
                claimed (record {
                  peg_out_graphs = s.peg_out_graphs;
                  claim_txids = s.claim_txids;
                  graph_sigs = s.graph_sigs;
                  fulfiller = s.fulfiller;
                  active_graph = s.active_graph;
                  withdrawal_request_txid = s.withdrawal_request_txid;
                  withdrawal_fulfillment_txid = s.withdrawal_fulfillment_txid;
                  l1_start_height = s.l1_start_height;
                  claim_height = height;
                  withdrawal_fulfillment_commitment = commitment;
                })))
      ]
  | _ ↦ rejected unexpected_state sm
]

unfoldable pub process_claim_verification_failure : ContractSm → Outcome
process_claim_verification_failure sm = elim sm.state.state [
  | claimed s ↦ accepted (some (verifier_duty publish_challenge)) sm
  | _ ↦ rejected unexpected_state sm
]

unfoldable pub process_challenge_confirmation : Calls → Transaction → ContractSm → Outcome
process_challenge_confirmation calls tx sm = elim sm.state.state [
  | claimed s ↦
      if not (is_challenge s.active_graph.1.claim_txid tx)
      then rejected (invalid_tx (calls.compute_txid tx)) sm
      else accepted none (
          set_state sm (
            challenged (record {
              peg_out_graphs = s.peg_out_graphs;
              claim_txids = s.claim_txids;
              graph_sigs = s.graph_sigs;
              fulfiller = s.fulfiller;
              active_graph = s.active_graph;
              withdrawal_request_txid = s.withdrawal_request_txid;
              claim_height = s.claim_height;
              withdrawal_fulfillment_txid = s.withdrawal_fulfillment_txid;
              withdrawal_fulfillment_commitment = s.withdrawal_fulfillment_commitment;
              l1_start_height = s.l1_start_height;
            })))
  | _ ↦ rejected unexpected_state sm
]

-- The scripts of the first outputs; `expect` panics if there are fewer than the assert data
-- transactions.
unfoldable pub pre_assert_locking_scripts : Transaction → Option (Array (List ℕ) num_assert_data_tx)
unfolding take_array
pre_assert_locking_scripts tx =
    elim (take_array num_assert_data_tx (map (λ (out : TxOut). out.script_pubkey) tx.output)) [
      | none ↦ none
      | some (scripts, rest) ↦ some scripts
    ]

-- The arm that `Challenged` and `Claimed` share, at the state that it sets.
unfoldable pub confirm_pre_assert : Calls → Transaction → ContractSm → PreAssertConfirmed → Outcome
confirm_pre_assert calls tx sm s =
    if not (calls.compute_txid tx == s.active_graph.1.pre_assert_txid)
    then rejected (invalid_tx (calls.compute_txid tx)) sm
    else if is_pov sm s.fulfiller
    then elim (pre_assert_locking_scripts tx) [
      | none ↦ panicked
      | some scripts ↦
          accepted
            (some (
              fulfiller_duty (
                publish_assert_data s.withdrawal_fulfillment_txid s.l1_start_height
                  sm.cfg.deposit_idx (deposit_txid calls sm) (calls.compute_txid tx) scripts)))
            (set_state sm (pre_assert_confirmed s))
    ]
    else accepted none (set_state sm (pre_assert_confirmed s))

unfoldable pub process_pre_assert_confirmation : Calls → Transaction → ContractSm → Outcome
unfolding confirm_pre_assert
process_pre_assert_confirmation calls tx sm = elim sm.state.state [
  | challenged s ↦ confirm_pre_assert calls tx sm (record {
    peg_out_graphs = s.peg_out_graphs;
    claim_txids = s.claim_txids;
    graph_sigs = s.graph_sigs;
    fulfiller = s.fulfiller;
    active_graph = s.active_graph;
    withdrawal_request_txid = s.withdrawal_request_txid;
    claim_height = s.claim_height;
    l1_start_height = s.l1_start_height;
    withdrawal_fulfillment_txid = s.withdrawal_fulfillment_txid;
    withdrawal_fulfillment_commitment = s.withdrawal_fulfillment_commitment;
    signed_assert_data_txs = [];
  })
  | claimed s ↦ confirm_pre_assert calls tx sm (record {
    peg_out_graphs = s.peg_out_graphs;
    claim_txids = s.claim_txids;
    graph_sigs = s.graph_sigs;
    fulfiller = s.fulfiller;
    active_graph = s.active_graph;
    withdrawal_request_txid = s.withdrawal_request_txid;
    claim_height = s.claim_height;
    l1_start_height = s.l1_start_height;
    withdrawal_fulfillment_txid = s.withdrawal_fulfillment_txid;
    withdrawal_fulfillment_commitment = s.withdrawal_fulfillment_commitment;
    signed_assert_data_txs = [];
  })
  | _ ↦ rejected unexpected_state sm
]
