-- ===== src/Contract/Payout.antt =====
-- How a contract is resolved (the payout handlers of
-- crates/duty-tracker/src/contract_state_machine.rs).
use strata_bridge.Prelude.{
  ℕ, true, false, Option, none, some, ◌≡◌, ◌≢◌, ◌⊎◌, inl, inr, refl, sym, ◌∙◌, arith,
}
use strata_bridge.Bitcoin.{Transaction}
use strata_bridge.Contract.Types.{
  Claimed, Asserted, Resolved, ContractState, ContractSm, optimistic, contested, requested,
  deposited, assigned, fulfilled, claimed, challenged, pre_assert_confirmed, assert_data_confirmed,
  asserted, disproved, resolved, aborted,
}
use strata_bridge.Contract.Duties.{
  ContractEvent, Calls, deposit_setup, graph_nonces, graph_sigs, aggregated_sigs, root_nonce,
  root_sig, assignment, deposit_confirmation, peg_out_graph_confirmation, block, claim_failure,
  assertion_failure,
}
use strata_bridge.Contract.State.{withdrawal_fulfillment_txid}
use strata_bridge.Contract.Chain.{
  process_fulfillment_confirmation, process_claim_confirmation, process_claim_verification_failure,
  process_challenge_confirmation, confirm_pre_assert, process_pre_assert_confirmation,
}
use strata_bridge.Contract.Assertion.{
  all_assert_data_confirmed, process_assert_data_confirmation, process_post_assert_confirmation,
  process_assertion_verification_failure, process_disprove_confirmation,
  process_optimistic_payout_confirmation, process_defended_payout_confirmation,
}
use strata_bridge.Contract.Confirms.{
  after, after-to_duties, Work, work, Confirms, ignored, by_fulfillment, by_claim, by_challenge,
  by_optimistic_payout, by_pre_assert, by_assert_data, by_post_assert, by_disprove,
  by_defended_payout, confirmation-Confirms,
}
use strata_bridge.Contract.Phase.{in_claimed, in_asserted, in_resolved, phase}
use strata_bridge.Contract.Progress.{is_final}
use strata_bridge.Contract.Keeps.{Gathers}
use strata_bridge.Contract.Gathering.{setup_event-Gathers}
use strata_bridge.Contract.Machine.{
  process_peg_out_graph_tx_confirmation, clear_pog_cache, process_deposit_confirmation,
  process_contract_event,
}
use strata_bridge.Contract.Height.{with_graph_sigs, block_duty, notify_new_block}
use strata_bridge.Contract.Assignment.{assign, dispatch, process_assignment}

-- A resolution of the work that a state carries: the claim and the withdrawal are those of the
-- state, and the payout is the optimistic one of a claim or the contested one of an assertion.
pub record Resolves (s : ContractState) (r : Resolved) : Type 0 where
  pub w : Work
  pub at : work s ≡ some w
  pub claim : r.claim_txid ≡ w.active_graph.1.claim_txid
  pub request : r.withdrawal_request_txid ≡ w.withdrawal_request_txid
  pub fulfillment : withdrawal_fulfillment_txid s ≡ some r.withdrawal_fulfillment_txid
  pub payout :
      ((phase s ≡ in_claimed)
        × (r.path ≡ optimistic)
        × (r.payout_txid ≡ w.active_graph.1.payout_optimistic_txid))
      ⊎ ((phase s ≡ in_asserted)
          × (r.path ≡ contested)
          × (r.payout_txid ≡ w.active_graph.1.payout_txid))

-- The confirmed transaction that an event brings.
abbrev pub confirmed : ContractEvent → Option Transaction
confirmed (peg_out_graph_confirmation tx height) = some tx
confirmed _ = none

module _ (calls : Calls) (tx : Transaction) (sm sm' : ContractSm) (r : Resolved) where
  optimistic-Resolves :
      (s : Claimed)
      → sm.state.state ≡ claimed s
      → sm'.state.state ≡ resolved r
      → after (process_optimistic_payout_confirmation calls tx sm) ≡ some sm'
      → Resolves (claimed s) r × (r.payout_txid ≡ calls.compute_txid tx)
  unfolding process_optimistic_payout_confirmation withdrawal_fulfillment_txid
  optimistic-Resolves s at at' h = (
    record {
      w = _;
      at = refl;
      claim = ground arith;
      request = ground arith;
      fulfillment = ground arith;
      payout = inl (refl, ground arith, ground arith);
    },
    ground arith,
  )

  defended-Resolves :
      (s : Asserted)
      → sm.state.state ≡ asserted s
      → sm'.state.state ≡ resolved r
      → after (process_defended_payout_confirmation calls tx sm) ≡ some sm'
      → Resolves (asserted s) r × (r.payout_txid ≡ calls.compute_txid tx)
  unfolding process_defended_payout_confirmation withdrawal_fulfillment_txid
  defended-Resolves s at at' h = (
    record {
      w = _;
      at = refl;
      claim = ground arith;
      request = ground arith;
      fulfillment = ground arith;
      payout = inr (refl, ground arith, ground arith);
    },
    ground arith,
  )

  -- No other handler resolves a contract.
  other-resolved :
      (height : ℕ)
      → sm'.state.state ≡ resolved r
      → (after (process_fulfillment_confirmation calls height tx sm) ≡ some sm')
        ⊎ (after (process_claim_confirmation calls height tx sm) ≡ some sm')
        ⊎ (after (process_challenge_confirmation calls tx sm) ≡ some sm')
        ⊎ (after (process_pre_assert_confirmation calls tx sm) ≡ some sm')
        ⊎ (after (process_assert_data_confirmation calls tx sm) ≡ some sm')
        ⊎ (after (process_post_assert_confirmation calls tx height sm) ≡ some sm')
        ⊎ (after (process_disprove_confirmation calls tx sm) ≡ some sm')
      → is_final (phase sm.state.state) ≡ true
  unfolding process_fulfillment_confirmation process_claim_confirmation
      process_challenge_confirmation process_pre_assert_confirmation confirm_pre_assert
      process_assert_data_confirmation all_assert_data_confirmed process_post_assert_confirmation
      process_disprove_confirmation
  other-resolved height at' h = ground arith

claimed_of_phase : (s : ContractState) → phase s ≡ in_claimed → (t : Claimed) × (s ≡ claimed t)
claimed_of_phase (requested t) h = cc
claimed_of_phase (deposited t) h = cc
claimed_of_phase (assigned t) h = cc
claimed_of_phase (fulfilled t) h = cc
claimed_of_phase (claimed t) h = (t, refl)
claimed_of_phase (challenged t) h = cc
claimed_of_phase (pre_assert_confirmed t) h = cc
claimed_of_phase (assert_data_confirmed t) h = cc
claimed_of_phase (asserted t) h = cc
claimed_of_phase (resolved t) h = cc
claimed_of_phase disproved h = cc
claimed_of_phase aborted h = cc

asserted_of_phase : (s : ContractState) → phase s ≡ in_asserted → (t : Asserted) × (s ≡ asserted t)
asserted_of_phase (requested t) h = cc
asserted_of_phase (deposited t) h = cc
asserted_of_phase (assigned t) h = cc
asserted_of_phase (fulfilled t) h = cc
asserted_of_phase (claimed t) h = cc
asserted_of_phase (challenged t) h = cc
asserted_of_phase (pre_assert_confirmed t) h = cc
asserted_of_phase (assert_data_confirmed t) h = cc
asserted_of_phase (asserted t) h = (t, refl)
asserted_of_phase (resolved t) h = cc
asserted_of_phase disproved h = cc
asserted_of_phase aborted h = cc

optimistic-phase :
    (calls : Calls) (tx : Transaction) (sm sm' : ContractSm)
    → is_final (phase sm.state.state) ≡ false
    → phase sm'.state.state ≡ in_resolved
    → after (process_optimistic_payout_confirmation calls tx sm) ≡ some sm'
    → phase sm.state.state ≡ in_claimed
unfolding process_optimistic_payout_confirmation
optimistic-phase calls tx sm sm' live at' h = ground arith

defended-phase :
    (calls : Calls) (tx : Transaction) (sm sm' : ContractSm)
    → is_final (phase sm.state.state) ≡ false
    → phase sm'.state.state ≡ in_resolved
    → after (process_defended_payout_confirmation calls tx sm) ≡ some sm'
    → phase sm.state.state ≡ in_asserted
unfolding process_defended_payout_confirmation
defended-phase calls tx sm sm' live at' h = ground arith

abbrev Paid : Calls → Transaction → ContractSm → Resolved → Type 0
Paid calls tx sm r = Resolves sm.state.state r × (r.payout_txid ≡ calls.compute_txid tx)

Confirms-Paid :
    (calls : Calls) (height : ℕ) (tx : Transaction) (sm sm' : ContractSm) (r : Resolved)
    → is_final (phase sm.state.state) ≡ false
    → sm'.state.state ≡ resolved r
    → Confirms calls height tx sm sm'
    → Paid calls tx sm r
Confirms-Paid calls height tx sm sm' r live at' (by_optimistic_payout h) =
    let (s, at) =
      claimed_of_phase sm.state.state (optimistic-phase calls tx sm sm' live (ground arith) h) in
    rw at (optimistic-Resolves calls tx sm sm' r s at at' h)
Confirms-Paid calls height tx sm sm' r live at' (by_defended_payout h) =
    let (s, at) =
      asserted_of_phase sm.state.state (defended-phase calls tx sm sm' live (ground arith) h) in
    rw at (defended-Resolves calls tx sm sm' r s at at' h)
Confirms-Paid calls height tx sm sm' r live at' (ignored h) = absurd (ground arith)
Confirms-Paid calls height tx sm sm' r live at' (by_fulfillment h) =
    absurd (ground (arith, other-resolved calls tx sm sm' r height))
Confirms-Paid calls height tx sm sm' r live at' (by_claim h) =
    absurd (ground (arith, other-resolved calls tx sm sm' r height))
Confirms-Paid calls height tx sm sm' r live at' (by_challenge h) =
    absurd (ground (arith, other-resolved calls tx sm sm' r height))
Confirms-Paid calls height tx sm sm' r live at' (by_pre_assert h) =
    absurd (ground (arith, other-resolved calls tx sm sm' r height))
Confirms-Paid calls height tx sm sm' r live at' (by_assert_data h) =
    absurd (ground (arith, other-resolved calls tx sm sm' r height))
Confirms-Paid calls height tx sm sm' r live at' (by_post_assert h) =
    absurd (ground (arith, other-resolved calls tx sm sm' r height))
Confirms-Paid calls height tx sm sm' r live at' (by_disprove h) =
    absurd (ground (arith, other-resolved calls tx sm sm' r height))

Gathers-resolved :
    (sm sm' : ContractSm) (r : Resolved)
    → is_final (phase sm.state.state) ≡ false
    → Gathers sm sm'
    → sm'.state.state ≢ resolved r
Gathers-resolved sm sm' r live h = λ at'. ground arith

other_event-resolved :
    (calls : Calls) (ev : ContractEvent) (sm sm' : ContractSm) (r : Resolved)
    → confirmed ev ≡ none
    → is_final (phase sm.state.state) ≡ false
    → after (process_contract_event calls ev sm) ≡ some sm'
    → sm'.state.state ≢ resolved r
unfolding process_contract_event process_assignment dispatch assign process_deposit_confirmation
    notify_new_block block_duty with_graph_sigs process_claim_verification_failure
    process_assertion_verification_failure clear_pog_cache
other_event-resolved calls (deposit_setup signer btc_key stake_hash stake_txid wots_keys) sm sm' r c
      live h =
    Gathers-resolved sm sm' r live (
      setup_event-Gathers calls (deposit_setup signer btc_key stake_hash stake_txid wots_keys) sm
        sm' refl h)
other_event-resolved calls (graph_nonces signer claim_txid nonces) sm sm' r c live h =
    Gathers-resolved sm sm' r live
      (setup_event-Gathers calls (graph_nonces signer claim_txid nonces) sm sm' refl h)
other_event-resolved calls (graph_sigs signer claim_txid partial_sigs) sm sm' r c live h =
    Gathers-resolved sm sm' r live
      (setup_event-Gathers calls (graph_sigs signer claim_txid partial_sigs) sm sm' refl h)
other_event-resolved calls (aggregated_sigs sigs) sm sm' r c live h =
    Gathers-resolved sm sm' r live (setup_event-Gathers calls (aggregated_sigs sigs) sm sm' refl h)
other_event-resolved calls (root_nonce signer nonce) sm sm' r c live h =
    Gathers-resolved sm sm' r live
      (setup_event-Gathers calls (root_nonce signer nonce) sm sm' refl h)
other_event-resolved calls (root_sig signer sig) sm sm' r c live h =
    Gathers-resolved sm sm' r live (setup_event-Gathers calls (root_sig signer sig) sm sm' refl h)
other_event-resolved calls (assignment entry stake_tx height) sm sm' r c live h =
    λ at'. ground arith
other_event-resolved calls (deposit_confirmation tx) sm sm' r c live h = λ at'. ground arith
other_event-resolved calls (peg_out_graph_confirmation tx height) sm sm' r c live h = cc
other_event-resolved calls (block height) sm sm' r c live h = λ at'. ground arith
other_event-resolved calls claim_failure sm sm' r c live h = λ at'. ground arith
other_event-resolved calls assertion_failure sm sm' r c live h = λ at'. ground arith

-- Only a confirmed payout resolves a contract: an event that resolves a contract which was not
-- over brings a transaction, whose id is the payout of the resolution, and it is the optimistic
-- payout of a claimed graph or the contested payout of an asserted graph, for the claim, the
-- withdrawal request and the fulfillment that the state had.
pub process_contract_event-Resolves :
    (calls : Calls) (ev : ContractEvent) (sm sm' : ContractSm) (r : Resolved)
    → is_final (phase sm.state.state) ≡ false
    → after (process_contract_event calls ev sm) ≡ some sm'
    → sm'.state.state ≡ resolved r
    → (tx : Transaction) × (confirmed ev ≡ some tx)
      × Resolves sm.state.state r
      × (r.payout_txid ≡ calls.compute_txid tx)
unfolding process_contract_event
process_contract_event-Resolves calls (peg_out_graph_confirmation tx height) sm sm' r live h at' =
    let (paid, txid) = Confirms-Paid calls height tx sm sm' r live at' (
      confirmation-Confirms calls height tx sm sm'
        (sym (after-to_duties (process_peg_out_graph_tx_confirmation calls height tx sm)) ∙ h)) in
    (tx, refl, paid, txid)
process_contract_event-Resolves calls (deposit_setup signer btc_key stake_hash stake_txid wots_keys)
      sm sm' r live h at' =
    absurd (
      other_event-resolved calls (deposit_setup signer btc_key stake_hash stake_txid wots_keys) sm
        sm' r refl live h at')
process_contract_event-Resolves calls (graph_nonces signer claim_txid nonces) sm sm' r live h at' =
    absurd
      (other_event-resolved calls (graph_nonces signer claim_txid nonces) sm sm' r refl live h at')
process_contract_event-Resolves calls (graph_sigs signer claim_txid partial_sigs) sm sm' r live h
      at' =
    absurd (
      other_event-resolved calls (graph_sigs signer claim_txid partial_sigs) sm sm' r refl live h
        at')
process_contract_event-Resolves calls (aggregated_sigs sigs) sm sm' r live h at' =
    absurd (other_event-resolved calls (aggregated_sigs sigs) sm sm' r refl live h at')
process_contract_event-Resolves calls (root_nonce signer nonce) sm sm' r live h at' =
    absurd (other_event-resolved calls (root_nonce signer nonce) sm sm' r refl live h at')
process_contract_event-Resolves calls (root_sig signer sig) sm sm' r live h at' =
    absurd (other_event-resolved calls (root_sig signer sig) sm sm' r refl live h at')
process_contract_event-Resolves calls (assignment entry stake_tx height) sm sm' r live h at' =
    absurd (other_event-resolved calls (assignment entry stake_tx height) sm sm' r refl live h at')
process_contract_event-Resolves calls (deposit_confirmation tx) sm sm' r live h at' =
    absurd (other_event-resolved calls (deposit_confirmation tx) sm sm' r refl live h at')
process_contract_event-Resolves calls (block height) sm sm' r live h at' =
    absurd (other_event-resolved calls (block height) sm sm' r refl live h at')
process_contract_event-Resolves calls claim_failure sm sm' r live h at' =
    absurd (other_event-resolved calls claim_failure sm sm' r refl live h at')
process_contract_event-Resolves calls assertion_failure sm sm' r live h at' =
    absurd (other_event-resolved calls assertion_failure sm sm' r refl live h at')
