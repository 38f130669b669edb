-- ===== src/Contract/Verification.antt =====
-- Who verifies a claim and an assertion (process_claim_confirmation and
-- process_post_assert_confirmation of crates/duty-tracker/src/contract_state_machine.rs).
use strata_bridge.Prelude.{ℕ, Bool, ◌⊎◌, true, false, Option, none, some, ◌≡◌, arith}
use strata_bridge.Bitcoin.{Transaction}
use strata_bridge.Contract.Types.{ContractSm}
use strata_bridge.Contract.Duties.{
  OperatorDuty, Calls, verify_claim, verify_assertion, verifier_duty, accepted,
}
use strata_bridge.Contract.Confirms.{Work, work}
use strata_bridge.Contract.Phase.{phase, Phase, in_fulfilled, in_assert_data_confirmed}
use strata_bridge.Contract.Chain.{is_pov, process_claim_confirmation}
use strata_bridge.Contract.Assertion.{process_post_assert_confirmation}
use strata_bridge.Contract.Machine.{process_peg_out_graph_tx_confirmation}

-- The duty to verify that the confirmation in a phase gives, to the fulfiller or to another operator.
abbrev pub verification : Phase → (is_fulfiller : Bool) → Option OperatorDuty
verification in_fulfilled false = some (verifier_duty verify_claim)
verification in_assert_data_confirmed true = some (verifier_duty verify_assertion)
verification _ _ = none

-- The confirmation of a claim, accepted, asks an operator that is not the fulfiller to verify it, and
-- the fulfiller nothing; the confirmation of a post-assert transaction, accepted, asks the fulfiller to
-- verify the assertion, and another operator nothing.
pub confirmation-verification :
    (calls : Calls) (height : ℕ) (tx : Transaction) (sm sm' : ContractSm)
    (duty : Option OperatorDuty)
    → (w : Work) → work sm.state.state ≡ some w
    → (phase sm.state.state ≡ in_fulfilled) ⊎ (phase sm.state.state ≡ in_assert_data_confirmed)
    → process_peg_out_graph_tx_confirmation calls height tx sm ≡ accepted duty sm'
    → duty ≡ verification (phase sm.state.state) (is_pov sm w.fulfiller)
unfolding process_peg_out_graph_tx_confirmation process_claim_confirmation
    process_post_assert_confirmation
confirmation-verification calls height tx sm sm' duty w at in_phase h = ground arith
