-- ===== src/Contract/Assertion.antt =====
-- The confirmations from the assert data transactions on, and the payouts
-- (crates/duty-tracker/src/contract_state_machine.rs).
use strata_bridge.Prelude.{
  ℕ, ◌+◌, Bool, true, false, not, Option, none, some, List, [], ◌∷◌, map, ◌==◌, ltb, if◌then◌else◌,
  length, contains, Run, done,
}
use strata_bridge.Prelude
use strata_bridge.Prelude.BTreeMap.{BTreeMap, get, insert, keys}
use strata_bridge.Prelude.Array.{to_list}
use strata_bridge.Bitcoin.{Transaction}
use strata_bridge.PogMusig.{num_assert_data_tx}
use strata_bridge.TxGraph.Witnesses.{parse_witnesses}
use strata_bridge.Contract.Types.{
  PreAssertConfirmed, ContractSm, optimistic, contested, claimed, pre_assert_confirmed,
  assert_data_confirmed, asserted, disproved, resolved,
}
use strata_bridge.Contract.Duties.{
  Outcome, Calls, publish_post_assert_data, verify_assertion, publish_disprove, fulfiller_duty,
  verifier_duty, unexpected_state, no_graph_sigs, no_assert_data_tx, invalid_tx, bad_witness,
  accepted, rejected, panicked,
}
use strata_bridge.Contract.Predicates.{is_disprove}
use strata_bridge.Contract.Chain.{set_state, is_pov, deposit_txid}

-- The rest of `process_assert_data_confirmation`, once all assert data transactions are there.
unfoldable pub all_assert_data_confirmed : Calls → ContractSm → PreAssertConfirmed → Outcome
unfolding get
all_assert_data_confirmed calls sm s =
    let next = set_state sm (
      assert_data_confirmed (record {
        peg_out_graphs = s.peg_out_graphs;
        claim_txids = s.claim_txids;
        graph_sigs = s.graph_sigs;
        fulfiller = s.fulfiller;
        active_graph = s.active_graph;
        withdrawal_request_txid = s.withdrawal_request_txid;
        withdrawal_fulfillment_txid = s.withdrawal_fulfillment_txid;
        withdrawal_fulfillment_commitment = s.withdrawal_fulfillment_commitment;
        signed_assert_data_txs = s.signed_assert_data_txs;
      })) in
    if is_pov sm s.fulfiller
    then elim (get s.active_graph.1.claim_txid s.graph_sigs) [
      | none ↦ rejected (no_graph_sigs s.active_graph.1.claim_txid) sm
      | some sigs ↦
          accepted
            (some (
              fulfiller_duty (
                publish_post_assert_data (deposit_txid calls sm) s.active_graph.1.assert_data_txids
                  sigs.post_assert)))
            next
    ]
    else accepted none next

unfoldable pub process_assert_data_confirmation : Calls → Transaction → ContractSm → Outcome
unfolding all_assert_data_confirmed insert
process_assert_data_confirmation calls tx sm = elim sm.state.state [
  | pre_assert_confirmed s ↦
      if not (contains (to_list s.active_graph.1.assert_data_txids) (calls.compute_txid tx))
      then rejected (invalid_tx (calls.compute_txid tx)) sm
      else let txs = insert (calls.compute_txid tx) tx s.signed_assert_data_txs in
        let s' = record s { signed_assert_data_txs = txs } in
        let sm' = set_state sm (pre_assert_confirmed s') in
        if ltb (length txs) num_assert_data_tx
        then accepted none sm'
        else all_assert_data_confirmed calls sm' s'
  | _ ↦ rejected unexpected_state sm
]

-- `map` and `collect` over the ids, up to the first that is not there.
unfoldable pub collect_assert_data :
    BTreeMap Transaction → List ℕ → Prelude.Result (List Transaction) ℕ
unfolding get
collect_assert_data txs [] = Prelude.ok []
collect_assert_data txs (txid ∷ txids) = elim (get txid txs) [
  | none ↦ Prelude.err txid
  | some tx ↦ elim (collect_assert_data txs txids) [
    | Prelude.err e ↦ Prelude.err e
    | Prelude.ok rest ↦ Prelude.ok (tx ∷ rest)
  ]
]

unfoldable pub process_post_assert_confirmation : Calls → Transaction → ℕ → ContractSm → Outcome
unfolding collect_assert_data
process_post_assert_confirmation calls tx post_assert_height sm = elim sm.state.state [
  | assert_data_confirmed s ↦
      if not (length (keys s.signed_assert_data_txs) == num_assert_data_tx)
      then rejected unexpected_state sm
      else if not (calls.compute_txid tx == s.active_graph.1.post_assert_txid)
      then rejected (invalid_tx (calls.compute_txid tx)) sm
      else elim (collect_assert_data s.signed_assert_data_txs
          (to_list s.active_graph.1.assert_data_txids)) [
            | Prelude.err txid ↦ rejected (no_assert_data_tx txid) sm
            | Prelude.ok txs ↦
                elim (parse_witnesses calls.debug calls.parse_assertion_witnesses txs) [
                  | Prelude.panicked ↦ panicked
                  | done none ↦ rejected bad_witness sm
                  | done (some commitment) ↦
                      accepted
                        (if is_pov sm s.fulfiller
                          then some (verifier_duty verify_assertion)
                          else none)
                        (set_state sm (
                          asserted (record {
                            peg_out_graphs = s.peg_out_graphs;
                            claim_txids = s.claim_txids;
                            graph_sigs = s.graph_sigs;
                            fulfiller = s.fulfiller;
                            active_graph = s.active_graph;
                            withdrawal_request_txid = s.withdrawal_request_txid;
                            withdrawal_fulfillment_txid = s.withdrawal_fulfillment_txid;
                            withdrawal_fulfillment_commitment = s.withdrawal_fulfillment_commitment;
                            post_assert_height = post_assert_height;
                            proof_commitment = commitment;
                          })))
                ]
          ]
  | _ ↦ rejected unexpected_state sm
]

unfoldable pub process_assertion_verification_failure : ContractSm → Outcome
process_assertion_verification_failure sm = elim sm.state.state [
  | asserted s ↦ accepted (some (verifier_duty publish_disprove)) sm
  | _ ↦ rejected unexpected_state sm
]

unfoldable pub process_disprove_confirmation : Calls → Transaction → ContractSm → Outcome
process_disprove_confirmation calls tx sm = elim sm.state.state [
  | asserted s ↦
      if not (is_disprove s.active_graph.1.post_assert_txid tx)
      then rejected (invalid_tx (calls.compute_txid tx)) sm
      else accepted none (set_state sm disproved)
  | _ ↦ rejected unexpected_state sm
]

unfoldable pub process_optimistic_payout_confirmation : Calls → Transaction → ContractSm → Outcome
process_optimistic_payout_confirmation calls tx sm = elim sm.state.state [
  | claimed s ↦
      if not (calls.compute_txid tx == s.active_graph.1.payout_optimistic_txid)
      then rejected (invalid_tx (calls.compute_txid tx)) sm
      else accepted none (
          set_state sm (
            resolved (record {
              claim_txid = s.active_graph.1.claim_txid;
              withdrawal_request_txid = s.withdrawal_request_txid;
              withdrawal_fulfillment_txid = s.withdrawal_fulfillment_txid;
              payout_txid = calls.compute_txid tx;
              path = optimistic;
            })))
  | _ ↦ rejected unexpected_state sm
]

unfoldable pub process_defended_payout_confirmation : Calls → Transaction → ContractSm → Outcome
process_defended_payout_confirmation calls tx sm = elim sm.state.state [
  | asserted s ↦
      if not (calls.compute_txid tx == s.active_graph.1.payout_txid)
      then rejected (invalid_tx (calls.compute_txid tx)) sm
      else accepted none (
          set_state sm (
            resolved (record {
              claim_txid = s.active_graph.1.claim_txid;
              withdrawal_request_txid = s.withdrawal_request_txid;
              withdrawal_fulfillment_txid = s.withdrawal_fulfillment_txid;
              payout_txid = calls.compute_txid tx;
              path = contested;
            })))
  | _ ↦ rejected unexpected_state sm
]
