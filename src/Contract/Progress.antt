-- ===== src/Contract/Progress.antt =====
-- How an event moves a contract from one state to another: the diagram of `ContractState` in
-- crates/duty-tracker/src/contract_state_machine.rs, with what each move keeps.
use strata_bridge.Prelude.{
  ℕ, Bool, true, false, Option, none, some, List, [], ◌∷◌, ◌≡◌, ◌⊎◌, refl, sym, inl, inr, arith,
  Option-cases, ◌∙◌,
}
use strata_bridge.Bitcoin.{Transaction}
use strata_bridge.Contract.Types.{ContractSm}
use strata_bridge.Contract.Phase.{
  Phase, phase, in_requested, in_deposited, in_assigned, in_fulfilled, in_claimed, in_challenged,
  in_pre_assert_confirmed, in_assert_data_confirmed, in_asserted, in_disproved, in_resolved,
  in_aborted,
}
use strata_bridge.Contract.Duties.{
  DepositEntry, ContractEvent, Calls, deposit_setup, graph_nonces, graph_sigs, aggregated_sigs,
  root_nonce, root_sig, assignment, deposit_confirmation, peg_out_graph_confirmation, block,
  claim_failure, assertion_failure,
}
use strata_bridge.Contract.Chain.{
  process_fulfillment_confirmation, process_claim_confirmation, process_claim_verification_failure,
  process_challenge_confirmation, confirm_pre_assert, process_pre_assert_confirmation,
}
use strata_bridge.Contract.Assertion.{
  all_assert_data_confirmed, process_assert_data_confirmation, process_post_assert_confirmation,
  process_assertion_verification_failure, process_disprove_confirmation,
  process_optimistic_payout_confirmation, process_defended_payout_confirmation,
}
use strata_bridge.Contract.Confirms.{
  after, after-to_duties, Confirms, ignored, by_fulfillment, by_claim, by_challenge,
  by_optimistic_payout, by_pre_assert, by_assert_data, by_post_assert, by_disprove,
  by_defended_payout, confirmation-Confirms,
}
use strata_bridge.Contract.Keeps.{Gathers, request_of}
use strata_bridge.Contract.Gathering.{is_setup, setup_event-Gathers}
use strata_bridge.Contract.Machine.{
  clear_pog_cache, process_deposit_confirmation, process_peg_out_graph_tx_confirmation,
  process_contract_event,
}
use strata_bridge.Contract.Height.{with_graph_sigs, block_duty, notify_new_block}
use strata_bridge.Contract.Assignment.{assign, dispatch, process_assignment}

-- The diagram: a state stays or moves along an arrow.
abbrev pub allowed : Phase → Phase → Bool
allowed in_requested in_requested = true
allowed in_deposited in_deposited = true
allowed in_assigned in_assigned = true
allowed in_fulfilled in_fulfilled = true
allowed in_claimed in_claimed = true
allowed in_challenged in_challenged = true
allowed in_pre_assert_confirmed in_pre_assert_confirmed = true
allowed in_assert_data_confirmed in_assert_data_confirmed = true
allowed in_asserted in_asserted = true
allowed in_disproved in_disproved = true
allowed in_resolved in_resolved = true
allowed in_aborted in_aborted = true
allowed in_requested in_deposited = true
allowed in_requested in_aborted = true
allowed in_deposited in_assigned = true
allowed in_assigned in_fulfilled = true
allowed in_fulfilled in_claimed = true
allowed in_claimed in_challenged = true
allowed in_claimed in_resolved = true
allowed in_claimed in_pre_assert_confirmed = true
allowed in_challenged in_pre_assert_confirmed = true
allowed in_pre_assert_confirmed in_assert_data_confirmed = true
allowed in_assert_data_confirmed in_asserted = true
allowed in_asserted in_disproved = true
allowed in_asserted in_resolved = true
allowed _ _ = false

-- What one call does to the machine as a whole.
abbrev pub Progress : ContractSm → ContractSm → Type 0
Progress sm sm' =
    (allowed (phase sm.state.state) (phase sm'.state.state) ≡ true) × (sm'.cfg ≡ sm.cfg)

module _ (calls : Calls) (sm sm' : ContractSm) where
  process_fulfillment_confirmation-Progress :
      (height : ℕ) (tx : Transaction)
      → after (process_fulfillment_confirmation calls height tx sm) ≡ some sm'
      → Progress sm sm'
  unfolding process_fulfillment_confirmation
  process_fulfillment_confirmation-Progress height tx h = ground arith

  process_claim_confirmation-Progress :
      (height : ℕ) (tx : Transaction)
      → after (process_claim_confirmation calls height tx sm) ≡ some sm'
      → Progress sm sm'
  unfolding process_claim_confirmation
  process_claim_confirmation-Progress height tx h = ground arith

  process_challenge_confirmation-Progress :
      (tx : Transaction)
      → after (process_challenge_confirmation calls tx sm) ≡ some sm'
      → Progress sm sm'
  unfolding process_challenge_confirmation
  process_challenge_confirmation-Progress tx h = ground arith

  process_pre_assert_confirmation-Progress :
      (tx : Transaction)
      → after (process_pre_assert_confirmation calls tx sm) ≡ some sm'
      → Progress sm sm'
  unfolding process_pre_assert_confirmation confirm_pre_assert
  process_pre_assert_confirmation-Progress tx h = ground arith

  process_assert_data_confirmation-Progress :
      (tx : Transaction)
      → after (process_assert_data_confirmation calls tx sm) ≡ some sm'
      → Progress sm sm'
  unfolding process_assert_data_confirmation all_assert_data_confirmed
  process_assert_data_confirmation-Progress tx h = ground arith

  process_post_assert_confirmation-Progress :
      (tx : Transaction) (height : ℕ)
      → after (process_post_assert_confirmation calls tx height sm) ≡ some sm'
      → Progress sm sm'
  unfolding process_post_assert_confirmation
  process_post_assert_confirmation-Progress tx height h = ground arith

  process_disprove_confirmation-Progress :
      (tx : Transaction)
      → after (process_disprove_confirmation calls tx sm) ≡ some sm'
      → Progress sm sm'
  unfolding process_disprove_confirmation
  process_disprove_confirmation-Progress tx h = ground arith

  process_optimistic_payout_confirmation-Progress :
      (tx : Transaction)
      → after (process_optimistic_payout_confirmation calls tx sm) ≡ some sm'
      → Progress sm sm'
  unfolding process_optimistic_payout_confirmation
  process_optimistic_payout_confirmation-Progress tx h = ground arith

  process_defended_payout_confirmation-Progress :
      (tx : Transaction)
      → after (process_defended_payout_confirmation calls tx sm) ≡ some sm'
      → Progress sm sm'
  unfolding process_defended_payout_confirmation
  process_defended_payout_confirmation-Progress tx h = ground arith

  process_deposit_confirmation-Progress :
      (tx : Transaction)
      → after (process_deposit_confirmation calls tx sm) ≡ some sm'
      → Progress sm sm'
  unfolding process_deposit_confirmation clear_pog_cache
  process_deposit_confirmation-Progress tx h = ground arith

  notify_new_block-Progress :
      (height : ℕ) → after (notify_new_block calls height sm) ≡ some sm' → Progress sm sm'
  unfolding notify_new_block block_duty with_graph_sigs
  notify_new_block-Progress height h = ground arith

  process_assignment-Progress :
      (entry : DepositEntry) (stake_tx height : ℕ)
      → after (process_assignment calls entry stake_tx height sm) ≡ some sm'
      → Progress sm sm'
  unfolding process_assignment dispatch assign
  process_assignment-Progress entry stake_tx height h = ground arith

  verification_failure-Progress :
      (after (process_claim_verification_failure sm) ≡ some sm')
        ⊎ (after (process_assertion_verification_failure sm) ≡ some sm')
      → Progress sm sm'
  unfolding process_claim_verification_failure process_assertion_verification_failure
  verification_failure-Progress h = ground arith

Confirms-Progress :
    (calls : Calls) (sm sm' : ContractSm) (height : ℕ) (tx : Transaction)
    → Confirms calls height tx sm sm'
    → Progress sm sm'
Confirms-Progress calls sm sm' height tx (by_fulfillment h) =
    process_fulfillment_confirmation-Progress calls sm sm' height tx h
Confirms-Progress calls sm sm' height tx (by_claim h) =
    process_claim_confirmation-Progress calls sm sm' height tx h
Confirms-Progress calls sm sm' height tx (by_challenge h) =
    process_challenge_confirmation-Progress calls sm sm' tx h
Confirms-Progress calls sm sm' height tx (by_optimistic_payout h) =
    process_optimistic_payout_confirmation-Progress calls sm sm' tx h
Confirms-Progress calls sm sm' height tx (by_pre_assert h) =
    process_pre_assert_confirmation-Progress calls sm sm' tx h
Confirms-Progress calls sm sm' height tx (by_assert_data h) =
    process_assert_data_confirmation-Progress calls sm sm' tx h
Confirms-Progress calls sm sm' height tx (by_post_assert h) =
    process_post_assert_confirmation-Progress calls sm sm' tx height h
Confirms-Progress calls sm sm' height tx (by_disprove h) =
    process_disprove_confirmation-Progress calls sm sm' tx h
Confirms-Progress calls sm sm' height tx (by_defended_payout h) =
    process_defended_payout_confirmation-Progress calls sm sm' tx h
Confirms-Progress calls sm sm' height tx (ignored h) = ground arith

Gathers-Progress : (sm sm' : ContractSm) → Gathers sm sm' → Progress sm sm'
Gathers-Progress sm sm' h = ground arith

-- Whatever an event's result, the machine it leaves stands in the same state or one arrow of the
-- diagram further, and its configuration is the same.
pub process_contract_event-Progress :
    (calls : Calls) (ev : ContractEvent) (sm sm' : ContractSm)
    → after (process_contract_event calls ev sm) ≡ some sm'
    → Progress sm sm'
unfolding process_contract_event
process_contract_event-Progress calls (deposit_setup signer btc_key stake_hash stake_txid wots_keys)
      sm sm' h =
    Gathers-Progress sm sm' (
      setup_event-Gathers calls (deposit_setup signer btc_key stake_hash stake_txid wots_keys) sm
        sm' refl h)
process_contract_event-Progress calls (graph_nonces signer claim_txid nonces) sm sm' h =
    Gathers-Progress sm sm'
      (setup_event-Gathers calls (graph_nonces signer claim_txid nonces) sm sm' refl h)
process_contract_event-Progress calls (graph_sigs signer claim_txid partial_sigs) sm sm' h =
    Gathers-Progress sm sm'
      (setup_event-Gathers calls (graph_sigs signer claim_txid partial_sigs) sm sm' refl h)
process_contract_event-Progress calls (aggregated_sigs sigs) sm sm' h =
    Gathers-Progress sm sm' (setup_event-Gathers calls (aggregated_sigs sigs) sm sm' refl h)
process_contract_event-Progress calls (root_nonce signer nonce) sm sm' h =
    Gathers-Progress sm sm' (setup_event-Gathers calls (root_nonce signer nonce) sm sm' refl h)
process_contract_event-Progress calls (root_sig signer sig) sm sm' h =
    Gathers-Progress sm sm' (setup_event-Gathers calls (root_sig signer sig) sm sm' refl h)
process_contract_event-Progress calls (assignment entry stake_tx height) sm sm' h =
    process_assignment-Progress calls sm sm' entry stake_tx height
      (sym (after-to_duties (process_assignment calls entry stake_tx height sm)) ∙ h)
process_contract_event-Progress calls (deposit_confirmation tx) sm sm' h =
    process_deposit_confirmation-Progress calls sm sm' tx
      (sym (after-to_duties (process_deposit_confirmation calls tx sm)) ∙ h)
process_contract_event-Progress calls (peg_out_graph_confirmation tx height) sm sm' h =
    Confirms-Progress calls sm sm' height tx (
      confirmation-Confirms calls height tx sm sm'
        (sym (after-to_duties (process_peg_out_graph_tx_confirmation calls height tx sm)) ∙ h))
process_contract_event-Progress calls (block height) sm sm' h =
    notify_new_block-Progress calls sm sm' height
      (sym (after-to_duties (notify_new_block calls height sm)) ∙ h)
process_contract_event-Progress calls claim_failure sm sm' h =
    verification_failure-Progress calls sm sm'
      (inl (sym (after-to_duties (process_claim_verification_failure sm)) ∙ h))
process_contract_event-Progress calls assertion_failure sm sm' h =
    verification_failure-Progress calls sm sm'
      (inr (sym (after-to_duties (process_assertion_verification_failure sm)) ∙ h))

-- The machine that a sequence of events leaves; `none` is a panic on the way.
unfoldable pub run : Calls → List ContractEvent → ContractSm → Option ContractSm
unfolding process_contract_event
run calls [] sm = some sm
run calls (ev ∷ evs) sm = elim (after (process_contract_event calls ev sm)) [
  | none ↦ none
  | some sm' ↦ run calls evs sm'
]

-- The states that a contract does not leave.
abbrev pub is_final : Phase → Bool
is_final in_disproved = true
is_final in_resolved = true
is_final in_aborted = true
is_final _ = false

allowed-is_final : (p q : Phase) → is_final p ≡ true → allowed p q ≡ true → q ≡ p
allowed-is_final p q f h = ground arith

-- A contract that is disproved, resolved or aborted stays so under every sequence of events.
pub run-is_final :
    (calls : Calls) (evs : List ContractEvent) (sm sm' : ContractSm)
    → is_final (phase sm.state.state) ≡ true
    → run calls evs sm ≡ some sm'
    → phase sm'.state.state ≡ phase sm.state.state
unfolding run
run-is_final calls [] sm sm' f h = ground arith
run-is_final calls (ev ∷ evs) sm sm' f h =
    elim (Option-cases (after (process_contract_event calls ev sm))) [
      | inl crash ↦ absurd (ground arith)
      | inr (mid, e) ↦
          let step =
            allowed-is_final (phase sm.state.state) (phase mid.state.state) f
              (process_contract_event-Progress calls ev sm mid e).0 in
          run-is_final calls evs mid sm' (ground arith) (ground arith) ∙ step
    ]

-- An event that is no message of the setup leaves a request as it was, or leaves none.
pub later_event-request_of :
    (calls : Calls) (ev : ContractEvent) (sm sm' : ContractSm)
    → is_setup ev ≡ false
    → after (process_contract_event calls ev sm) ≡ some sm'
    → (request_of sm'.state.state ≡ request_of sm.state.state) ⊎ (request_of sm'.state.state ≡ none)
unfolding process_contract_event process_deposit_confirmation clear_pog_cache process_assignment
    dispatch assign notify_new_block block_duty with_graph_sigs process_claim_verification_failure
    process_assertion_verification_failure
later_event-request_of calls (deposit_setup signer btc_key stake_hash stake_txid wots_keys) sm sm' e
      h =
    cc
later_event-request_of calls (graph_nonces signer claim_txid nonces) sm sm' e h = cc
later_event-request_of calls (graph_sigs signer claim_txid partial_sigs) sm sm' e h = cc
later_event-request_of calls (aggregated_sigs sigs) sm sm' e h = cc
later_event-request_of calls (root_nonce signer nonce) sm sm' e h = cc
later_event-request_of calls (root_sig signer sig) sm sm' e h = cc
later_event-request_of calls (peg_out_graph_confirmation tx height) sm sm' e h =
    elim (Option-cases (request_of sm.state.state)) [
      | inr (s, at) ↦ inl (ground arith)
      | inl none' ↦ inr (
          ground (
            arith,
            process_contract_event-Progress calls (peg_out_graph_confirmation tx height) sm sm' h,
          ))
    ]
later_event-request_of calls (deposit_confirmation tx) sm sm' e h = ground arith
later_event-request_of calls (assignment entry stake_tx height) sm sm' e h = ground arith
later_event-request_of calls (block height) sm sm' e h = ground arith
later_event-request_of calls claim_failure sm sm' e h = ground arith
later_event-request_of calls assertion_failure sm sm' e h = ground arith
