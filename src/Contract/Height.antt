-- ===== src/Contract/Height.antt =====
-- A new block, `notify_new_block` (crates/duty-tracker/src/contract_state_machine.rs).
use strata_bridge.Prelude.{ℕ, ◌+◌, ◌%◌, ◌&&◌, none, some, ◌==◌, leb, if◌then◌else◌}
use strata_bridge.Prelude.BTreeMap.{BTreeMap, get}
use strata_bridge.PogMusig.{PogMusigF}
use strata_bridge.Contract.Types.{ContractSm, requested, claimed, challenged, asserted, aborted}
use strata_bridge.Contract.Duties.{
  FulfillerDuty, Outcome, Calls, publish_payout_optimistic, publish_pre_assert, publish_payout,
  abort, fulfiller_duty, unexpected_block, no_graph_sigs, accepted, rejected,
}
use strata_bridge.Contract.Chain.{set_state, is_pov, deposit_txid}

-- `+` on `u64` in a release build, which wraps.
unfoldable pub add_u64 : ℕ → ℕ → ℕ
add_u64 a b = (a + b) % 18446744073709551616

-- A duty that needs the aggregated signatures of a graph.
unfoldable pub with_graph_sigs :
    BTreeMap (PogMusigF ℕ) → ℕ → ContractSm → (PogMusigF ℕ → FulfillerDuty) → Outcome
unfolding get
with_graph_sigs graph_sigs claim_txid sm duty = elim (get claim_txid graph_sigs) [
  | none ↦ rejected (no_graph_sigs claim_txid) sm
  | some sigs ↦ accepted (some (fulfiller_duty (duty sigs))) sm
]

-- The `match` of `notify_new_block`, once the height is the new one.
unfoldable pub block_duty : Calls → ContractSm → Outcome
unfolding add_u64 with_graph_sigs
block_duty calls sm = elim sm.state.state [
  | requested s ↦
      if leb s.abort_deadline sm.state.block_height
      then accepted (some abort) (set_state sm aborted)
      else accepted none sm
  | claimed s ↦
      if leb (add_u64 s.claim_height sm.cfg.connector_params.payout_optimistic_timelock)
          sm.state.block_height
        && is_pov sm s.fulfiller
      then with_graph_sigs s.graph_sigs s.active_graph.1.claim_txid sm (λ sigs.
        publish_payout_optimistic (deposit_txid calls sm) s.active_graph.1.claim_txid
          s.active_graph.1.stake_txid sm.cfg.deposit_idx sigs.payout_optimistic)
      else accepted none sm
  | challenged s ↦
      if leb (add_u64 s.claim_height sm.cfg.connector_params.pre_assert_timelock)
          sm.state.block_height
        && is_pov sm s.fulfiller
      then with_graph_sigs s.graph_sigs s.active_graph.1.claim_txid sm (λ sigs.
        publish_pre_assert sm.cfg.deposit_idx (deposit_txid calls sm) s.active_graph.1.claim_txid
          sigs.pre_assert)
      else accepted none sm
  | asserted s ↦
      if leb (add_u64 s.post_assert_height sm.cfg.connector_params.payout_timelock)
          sm.state.block_height
        && is_pov sm s.fulfiller
      then with_graph_sigs s.graph_sigs s.active_graph.1.claim_txid sm (λ sigs.
        publish_payout sm.cfg.deposit_idx (deposit_txid calls sm) s.active_graph.1.post_assert_txid
          s.active_graph.1.claim_txid s.active_graph.0.stake_outpoint.txid sigs.payout)
      else accepted none sm
  | _ ↦ accepted none sm
]

unfoldable pub notify_new_block : Calls → ℕ → ContractSm → Outcome
unfolding add_u64 block_duty
notify_new_block calls height sm =
    if add_u64 sm.state.block_height 1 == height
    then block_duty calls (record sm { state = record sm.state { block_height = height } })
    else rejected (unexpected_block (add_u64 sm.state.block_height 1) height) sm
