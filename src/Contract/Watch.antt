-- ===== src/Contract/Watch.antt =====
-- The filter of a contract, `transaction_filter` (crates/duty-tracker/src/contract_state_machine.rs).
use strata_bridge.Prelude.{
  ℕ, Bool, true, false, ◌||◌, List, [], ◌∷◌, ◌==◌, contains, any, Run, done,
}
use strata_bridge.Prelude.Array.{to_list}
use strata_bridge.Bitcoin.{Transaction}
use strata_bridge.Operators.{operator_idxs}
use strata_bridge.PegOutGraph.{PegOutGraphSummary}
use strata_bridge.Contract.Types.{ContractSm, assigned}
use strata_bridge.Contract.Duties.{Calls}
use strata_bridge.Contract.Predicates.{is_challenge, is_disprove, is_fulfillment_tx}
use strata_bridge.Contract.State.{summaries}
use strata_bridge.Contract.Chain.{deposit_txid}

-- Is it a transaction of this graph, or one that spends from it?
unfoldable pub in_graph : Calls → Transaction → PegOutGraphSummary → Bool
in_graph calls tx g =
    let txid = calls.compute_txid tx in
    g.claim_txid == txid
    || (g.payout_optimistic_txid == txid
        || (g.pre_assert_txid == txid
            || (contains (to_list g.assert_data_txids) txid
                || (g.post_assert_txid == txid
                    || (g.payout_txid == txid
                        || (is_challenge g.claim_txid tx || is_disprove g.post_assert_txid tx))))))

-- `any` over the operators, with the panic of making a predicate.
unfoldable pub any_fulfillment :
    Calls → Transaction → ContractSm → (recipient : ℕ) → List ℕ → Run Bool
any_fulfillment calls tx sm recipient [] = done false
any_fulfillment calls tx sm recipient (operator_idx ∷ rest) =
    let later = any_fulfillment calls tx sm recipient rest in
    elim (is_fulfillment_tx calls sm.cfg.network sm.cfg.peg_out_graph_params operator_idx
      sm.cfg.deposit_idx (deposit_txid calls sm) recipient tx) [
        | Run.panicked ↦ Run.panicked
        | done true ↦ done true
        | done false ↦ later
      ]

unfoldable pub filter_graphs : Calls → Transaction → ContractSm → Bool
unfolding in_graph
filter_graphs calls tx sm =
    any (λ g. deposit_txid calls sm == calls.compute_txid tx || in_graph calls tx g)
      (summaries sm.state.state)

unfoldable pub transaction_filter : Calls → Transaction → ContractSm → Run Bool
unfolding any_fulfillment filter_graphs
transaction_filter calls tx sm = elim sm.state.state [
  | assigned s ↦
      elim (any_fulfillment calls tx sm s.recipient (operator_idxs sm.cfg.operator_table)) [
        | Run.panicked ↦ Run.panicked
        | done true ↦ done true
        | done false ↦ done (filter_graphs calls tx sm)
      ]
  | _ ↦ done (filter_graphs calls tx sm)
]
