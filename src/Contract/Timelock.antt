-- ===== src/Contract/Timelock.antt =====
-- What new blocks do: the timelocks of a claim and of an assertion, and the deadline of a request
-- (`notify_new_block` of crates/duty-tracker/src/contract_state_machine.rs).
use strata_bridge.Prelude.{
  ℕ, zero, suc, ◌+◌, ◌<◌, ◌&&◌, Bool, true, false, Option, none, some, List, [], ◌∷◌, ◌≡◌, refl,
  arith, leb,
}
use strata_bridge.Prelude.BTreeMap.{contains_key}
use strata_bridge.Contract.Types.{
  ContractCfg, Requested, Claimed, Challenged, Asserted, ContractState, ContractSm, requested,
  claimed, challenged, asserted, aborted,
}
use strata_bridge.Contract.Duties.{ContractEvent, Outcome, Calls, block, fulfiller_duty, accepted}
use strata_bridge.Contract.Chain.{is_pov}
use strata_bridge.Contract.Confirms.{Work, work}
use strata_bridge.Contract.Progress.{run}
use strata_bridge.Contract.Machine.{process_contract_event}
use strata_bridge.Contract.Height.{add_u64, with_graph_sigs, block_duty, notify_new_block}

-- A block asks this operator for a transaction.
abbrev pub asks_fulfiller : Outcome → Bool
asks_fulfiller (accepted (some (fulfiller_duty d)) sm) = true
asks_fulfiller _ = false

-- The block from which the transaction after a claim or an assertion can be published.
abbrev pub matures : ContractCfg → ContractState → Option ℕ
matures cfg (claimed s) = some (s.claim_height + cfg.connector_params.payout_optimistic_timelock)
matures cfg (challenged s) = some (s.claim_height + cfg.connector_params.pre_assert_timelock)
matures cfg (asserted s) = some (s.post_assert_height + cfg.connector_params.payout_timelock)
matures cfg _ = none

abbrev pub FitsU64 : ℕ → Type 0
FitsU64 n = n < 18446744073709551616

add_u64_lem : (a b : ℕ) → FitsU64 (a + b) → add_u64 a b ≡ a + b
unfolding add_u64
add_u64_lem a b h = omega arith

-- In a state that waits for a timelock (claimed, challenged or asserted), heights within 64 bits, the
-- next block makes this operator publish a transaction exactly if the timelock has run out, it is the
-- fulfiller, and the graph's signatures are known.
pub notify_new_block-asks_fulfiller :
    (calls : Calls) (sm : ContractSm) (m : ℕ) (w : Work)
    → FitsU64 (suc sm.state.block_height)
    → matures sm.cfg sm.state.state ≡ some m
    → FitsU64 m
    → work sm.state.state ≡ some w
    → asks_fulfiller (notify_new_block calls (suc sm.state.block_height) sm) ≡ (
        leb m (suc sm.state.block_height)
        && (is_pov sm w.fulfiller && contains_key w.active_graph.1.claim_txid w.graph_sigs))
unfolding notify_new_block block_duty with_graph_sigs contains_key
notify_new_block-asks_fulfiller calls sm m w fits at fits' at' = ground (
  arith,
  add_u64_lem sm.state.block_height 1,
  λ (s : Claimed). add_u64_lem s.claim_height sm.cfg.connector_params.payout_optimistic_timelock,
  λ (s : Challenged). add_u64_lem s.claim_height sm.cfg.connector_params.pre_assert_timelock,
  λ (s : Asserted). add_u64_lem s.post_assert_height sm.cfg.connector_params.payout_timelock,
)

-- A run of the next `n` blocks.
abbrev pub next_blocks : (n height : ℕ) → List ContractEvent
next_blocks zero height = []
next_blocks (suc n) height = block (suc height) ∷ next_blocks n (suc height)

-- What becomes of a deposit request that nothing but blocks happens to.
abbrev pub requested_until : Requested → ℕ → ContractState
requested_until s height = elim (leb s.abort_deadline height) [
  | true ↦ aborted
  | false ↦ requested s
]

-- Heights within 64 bits: while nothing but blocks reaches a contract that is only requested, it stays requested up to its
-- deadline and is aborted with the block at the deadline.
pub run-requested_until :
    (calls : Calls) (n : ℕ) (sm : ContractSm) (s : Requested)
    → sm.state.state ≡ requested_until s sm.state.block_height
    → FitsU64 (sm.state.block_height + n)
    → run calls (next_blocks n sm.state.block_height) sm
      ≡ some (record sm {
        state = record {
          block_height = sm.state.block_height + n;
          state = requested_until s (sm.state.block_height + n);
        };
      })
unfolding run notify_new_block block_duty process_contract_event
run-requested_until calls zero sm s at fits = ground arith
run-requested_until calls (suc n) sm s at fits =
    let next : ContractSm = record sm {
      state = record {
        block_height = suc sm.state.block_height;
        state = requested_until s (suc sm.state.block_height);
      };
    } in
    ground (arith, add_u64_lem sm.state.block_height 1, run-requested_until calls n next s refl)
