-- ===== src/Contract/Phase.antt =====
-- The states of a contract without their data (`ContractState` of
-- crates/duty-tracker/src/contract_state_machine.rs).
use strata_bridge.Contract.Types.{
  ContractState, requested, deposited, assigned, fulfilled, claimed, challenged,
  pre_assert_confirmed, assert_data_confirmed, asserted, disproved, resolved, aborted,
}

pub data Phase : Type 0 where
  in_requested in_deposited in_assigned in_fulfilled in_claimed in_challenged : Phase
  in_pre_assert_confirmed in_assert_data_confirmed in_asserted : Phase
  in_disproved in_resolved in_aborted : Phase

abbrev pub phase : ContractState → Phase
phase (requested s) = in_requested
phase (deposited s) = in_deposited
phase (assigned s) = in_assigned
phase (fulfilled s) = in_fulfilled
phase (claimed s) = in_claimed
phase (challenged s) = in_challenged
phase (pre_assert_confirmed s) = in_pre_assert_confirmed
phase (assert_data_confirmed s) = in_assert_data_confirmed
phase (asserted s) = in_asserted
phase (resolved s) = in_resolved
phase disproved = in_disproved
phase aborted = in_aborted
