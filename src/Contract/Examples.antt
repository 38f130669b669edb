-- ===== src/Contract/Examples.antt =====
-- The theorems on the contract state machine at the contract of Fixtures.
use strata_bridge.Prelude
use strata_bridge.Prelude.{
  inl, ℕ, zero, suc, ◌+◌, ◌≤◌, ◌&&◌, Bool, true, false, Option, none, some, List, [], ◌∷◌, ◌≡◌, ◌≢◌,
  refl, arith, length, leb, Run, done,
}
use strata_bridge.Prelude.BTreeMap.{get, insert, contains_key}
use strata_bridge.Prelude.Array.{to_list}
use strata_bridge.Bitcoin.{Transaction}
use strata_bridge.PogMusig.{num_assert_data_tx}
use strata_bridge.Contract.Types.{
  Requested, Deposited, requested, deposited, fulfilled, claimed, pre_assert_confirmed,
  assert_data_confirmed, resolved, aborted,
}
use strata_bridge.Contract.Duties.{peg_out_graph_confirmation, block, accepted}
use strata_bridge.Contract.Predicates.{is_challenge}
use strata_bridge.Contract.Chain.{
  set_state, is_pov, process_claim_confirmation, process_challenge_confirmation,
}
use strata_bridge.Contract.Assertion.{
  all_assert_data_confirmed, process_assert_data_confirmation, collect_assert_data,
  process_optimistic_payout_confirmation,
}
use strata_bridge.Contract.Confirms.{after, Work, work}
use strata_bridge.Contract.Phase.{phase}
use strata_bridge.Contract.Progress.{Progress, process_contract_event-Progress, run, run-is_final}
use strata_bridge.Contract.Invariant.{graph_of, run-IsWellFormed}
use strata_bridge.Contract.Payout.{Resolves, confirmed, process_contract_event-Resolves}
use strata_bridge.Contract.Timelock.{
  asks_fulfiller, notify_new_block-asks_fulfiller, next_blocks, run-requested_until,
}
use strata_bridge.Contract.AssertData.{IsCollecting, IsSettled, run-assert_data_complete}
use strata_bridge.Contract.Filter.{transaction_filter_complete}
use strata_bridge.Contract.Machine.{
  clear_pog_cache, process_deposit_confirmation, process_peg_out_graph_tx_confirmation,
  process_contract_event,
}
use strata_bridge.Contract.Watch.{transaction_filter}
use strata_bridge.Contract.Height.{add_u64, block_duty, notify_new_block}
use strata_bridge.Contract.State.{find_operator}
use strata_bridge.Contract.Fixtures.{
  tx_of, calls, cfg, count_from, collected_from, confirm_from, graph, sigs, at_state,
  fulfilled_state, claimed_state, resolved_state, pre_assert_state, assert_data_state,
  requested_state,
}
use strata_bridge.Contract.Verification.{verification, confirmation-verification}
use strata_bridge.Contract.Deposit.{process_deposit_confirmation-deposited}

confirms_claim :
    after (
      process_contract_event calls
        (peg_out_graph_confirmation (tx_of 101) 60)
        (at_state 60 (fulfilled fulfilled_state)))
    ≡ some (at_state 60 (claimed claimed_state))
unfolding process_contract_event process_claim_confirmation
confirms_claim = refl

process_contract_event-Progress_example :
    Progress (at_state 60 (fulfilled fulfilled_state)) (at_state 60 (claimed claimed_state))
process_contract_event-Progress_example =
    process_contract_event-Progress calls (peg_out_graph_confirmation (tx_of 101) 60)
      (at_state 60 (fulfilled fulfilled_state)) (at_state 60 (claimed claimed_state)) confirms_claim

process_contract_event-Resolves_example :
    (tx : Transaction) × (confirmed (peg_out_graph_confirmation (tx_of 102) 72) ≡ some tx)
    × Resolves (claimed claimed_state) resolved_state
    × (resolved_state.payout_txid ≡ calls.compute_txid tx)
unfolding process_contract_event process_challenge_confirmation
    process_optimistic_payout_confirmation is_challenge
process_contract_event-Resolves_example =
    process_contract_event-Resolves calls (peg_out_graph_confirmation (tx_of 102) 72)
      (at_state 72 (claimed claimed_state)) (at_state 72 (resolved resolved_state)) resolved_state
      refl refl refl

fulfilled_graph :
    (w : Work) → work (fulfilled fulfilled_state) ≡ some w → graph_of cfg w ≡ some w.active_graph
unfolding get
fulfilled_graph w at = ground arith

transaction_filter_complete_example :
    transaction_filter calls (tx_of 101) (at_state 60 (fulfilled fulfilled_state)) ≡ done true
unfolding process_peg_out_graph_tx_confirmation process_claim_confirmation
transaction_filter_complete_example =
    transaction_filter_complete calls 60 (tx_of 101) (at_state 60 (fulfilled fulfilled_state))
      (at_state 60 (claimed claimed_state)) fulfilled_graph refl (λ e. cc)

claimed_work : Work
claimed_work = record {
  peg_out_graphs = (101, graph) ∷ [];
  claim_txids = (11, 101) ∷ [];
  graph_sigs = (101, sigs) ∷ [];
  fulfiller = 1;
  active_graph = graph;
  withdrawal_request_txid = 70;
}

run-IsWellFormed_example : graph_of cfg claimed_work ≡ some graph
unfolding run claimed_work process_contract_event process_claim_confirmation
run-IsWellFormed_example =
    run-IsWellFormed calls (peg_out_graph_confirmation (tx_of 101) 60 ∷ [])
      (at_state 60 (fulfilled fulfilled_state)) (at_state 60 (claimed claimed_state))
      fulfilled_graph refl claimed_work refl

notify_new_block-asks_fulfiller_example :
    asks_fulfiller (notify_new_block calls 70 (at_state 69 (claimed claimed_state))) ≡ (
      leb 70 70
      && (is_pov (at_state 69 (claimed claimed_state)) 1 && contains_key 101 ((101, sigs) ∷ [])))
unfolding claimed_work
notify_new_block-asks_fulfiller_example =
    notify_new_block-asks_fulfiller calls (at_state 69 (claimed claimed_state)) 70 claimed_work
      (omega arith) refl (omega arith) refl

run-requested_until_example :
    run calls (next_blocks 5 50) (at_state 50 (requested requested_state))
    ≡ some (at_state 55 aborted)
run-requested_until_example =
    run-requested_until calls 5 (at_state 50 (requested requested_state)) requested_state refl
      (omega arith)

run-is_final_example : phase aborted ≡ phase aborted
unfolding run process_contract_event notify_new_block block_duty add_u64
run-is_final_example =
    run-is_final calls (block 51 ∷ []) (at_state 50 aborted) (at_state 51 aborted) refl refl

nothing_collected : IsCollecting (pre_assert_confirmed pre_assert_state)
unfolding get contains_key
nothing_collected = record { sorted = tt; within = λ k h. ground arith; all_there = refl }

run-assert_data_complete_example :
    (txs : List Transaction) × (collect_assert_data
        (collected_from num_assert_data_tx 200)
        (to_list (count_from num_assert_data_tx 200))
      ≡ Prelude.ok txs)
    × (length txs ≡ num_assert_data_tx)
    × IsSettled calls (tx_of 104) 61 (at_state 60 (assert_data_confirmed assert_data_state)) txs
unfolding run process_contract_event process_assert_data_confirmation all_assert_data_confirmed get
    insert
run-assert_data_complete_example =
    run-assert_data_complete calls (confirm_from num_assert_data_tx 200)
      (at_state 60 (pre_assert_confirmed pre_assert_state))
      (at_state 60 (assert_data_confirmed assert_data_state)) assert_data_state (tx_of 104) 61
      nothing_collected refl refl refl

abbrev ready_state : Requested
ready_state = record requested_state {
  peg_out_graph_inputs = (10, graph.0) ∷ (11, graph.0) ∷ [];
  peg_out_graph_summaries = (101, graph.1) ∷ (107, graph.1) ∷ [];
  claim_txids = (10, 107) ∷ (11, 101) ∷ [];
}

process_deposit_confirmation-deposited_example :
    (d : Deposited) × (process_deposit_confirmation calls
        (tx_of 50)
        (at_state 50 (requested ready_state))
      ≡ accepted none
          (clear_pog_cache (set_state (at_state 50 (requested ready_state)) (deposited d))))
    × (d.claim_txids ≡ ready_state.claim_txids)
    × (get 101 d.peg_out_graphs ≡ some graph)
unfolding get find_operator
process_deposit_confirmation-deposited_example =
    process_deposit_confirmation-deposited calls (tx_of 50) (at_state 50 (requested ready_state))
      ready_state 11 101 graph.0 graph.1 refl refl (omega arith, (omega arith, tt))
      (refl, (refl, tt)) ((λ e. cc), (λ e. cc), ((λ e. cc), (λ e. cc), tt)) refl refl refl

confirmation-verification_example : none ≡ verification (phase (fulfilled fulfilled_state)) true
unfolding claimed_work process_peg_out_graph_tx_confirmation process_claim_confirmation
confirmation-verification_example =
    confirmation-verification calls 60 (tx_of 101) (at_state 60 (fulfilled fulfilled_state))
      (at_state 60 (claimed claimed_state)) none claimed_work refl (inl refl) refl
