-- ===== src/Contract/Invariant.antt =====
-- The graph that a contract works on is the one that was set up for its fulfiller (`active_graph`
-- of crates/duty-tracker/src/contract_state_machine.rs).
use strata_bridge.Prelude.{
  ℕ, Option, none, some, List, [], ◌∷◌, ◌≡◌, ◌⊎◌, inl, inr, refl, sym, ◌∙◌, arith, Option-cases,
}
use strata_bridge.Prelude.BTreeMap.{get}
use strata_bridge.Bitcoin.{Transaction}
use strata_bridge.Operators.{idx_to_p2p_key}
use strata_bridge.Contract.Types.{Graph, ContractCfg, ContractSm}
use strata_bridge.Contract.Duties.{
  ContractEvent, Calls, deposit_setup, graph_nonces, graph_sigs, aggregated_sigs, root_nonce,
  root_sig, assignment, deposit_confirmation, peg_out_graph_confirmation, block, claim_failure,
  assertion_failure,
}
use strata_bridge.Contract.Chain.{
  process_fulfillment_confirmation, process_claim_confirmation, process_claim_verification_failure,
  process_challenge_confirmation, confirm_pre_assert, process_pre_assert_confirmation,
}
use strata_bridge.Contract.Assertion.{
  all_assert_data_confirmed, process_assert_data_confirmation, process_post_assert_confirmation,
  process_assertion_verification_failure, process_disprove_confirmation,
  process_optimistic_payout_confirmation, process_defended_payout_confirmation,
}
use strata_bridge.Contract.Confirms.{
  after, after-to_duties, Work, work, Confirms, ignored, by_fulfillment, by_claim, by_challenge,
  by_optimistic_payout, by_pre_assert, by_assert_data, by_post_assert, by_disprove,
  by_defended_payout, confirmation-Confirms,
}
use strata_bridge.Contract.Progress.{run, process_contract_event-Progress}
use strata_bridge.Contract.Keeps.{Gathers}
use strata_bridge.Contract.Gathering.{setup_event-Gathers}
use strata_bridge.Contract.Machine.{
  process_peg_out_graph_tx_confirmation, clear_pog_cache, process_deposit_confirmation,
  process_contract_event,
}
use strata_bridge.Contract.Height.{with_graph_sigs, block_duty, notify_new_block}
use strata_bridge.Contract.Assignment.{assign, dispatch, process_assignment}

-- The graph that the fulfiller's claim names.
abbrev pub graph_of : ContractCfg → Work → Option Graph
graph_of cfg w = elim (idx_to_p2p_key cfg.operator_table w.fulfiller) [
  | none ↦ none
  | some key ↦ elim (get key w.claim_txids) [
    | none ↦ none
    | some claim_txid ↦ get claim_txid w.peg_out_graphs
  ]
]

abbrev pub IsWellFormed : ContractSm → Type 0
IsWellFormed sm =
    (w : Work) → work sm.state.state ≡ some w → graph_of sm.cfg w ≡ some w.active_graph

Confirms-work :
    (calls : Calls) (height : ℕ) (tx : Transaction) (sm sm' : ContractSm) (w : Work)
    → Confirms calls height tx sm sm'
    → work sm'.state.state ≡ some w
    → work sm.state.state ≡ some w
unfolding process_fulfillment_confirmation process_claim_confirmation process_challenge_confirmation
    process_pre_assert_confirmation confirm_pre_assert process_assert_data_confirmation
    all_assert_data_confirmed process_post_assert_confirmation process_disprove_confirmation
    process_optimistic_payout_confirmation process_defended_payout_confirmation
Confirms-work calls height tx sm sm' w (ignored h) at = ground arith
Confirms-work calls height tx sm sm' w (by_fulfillment h) at = ground arith
Confirms-work calls height tx sm sm' w (by_claim h) at = ground arith
Confirms-work calls height tx sm sm' w (by_challenge h) at = ground arith
Confirms-work calls height tx sm sm' w (by_optimistic_payout h) at = ground arith
Confirms-work calls height tx sm sm' w (by_pre_assert h) at = ground arith
Confirms-work calls height tx sm sm' w (by_assert_data h) at = ground arith
Confirms-work calls height tx sm sm' w (by_post_assert h) at = ground arith
Confirms-work calls height tx sm sm' w (by_disprove h) at = ground arith
Confirms-work calls height tx sm sm' w (by_defended_payout h) at = ground arith

Gathers-work :
    (sm sm' : ContractSm) (w : Work)
    → Gathers sm sm'
    → work sm'.state.state ≡ some w
    → work sm.state.state ≡ some w
Gathers-work sm sm' w h at = ground arith

-- An event keeps the work of a state, or it is an assignment, which names the fulfiller's graph.
event-work :
    (calls : Calls) (ev : ContractEvent) (sm sm' : ContractSm) (w : Work)
    → after (process_contract_event calls ev sm) ≡ some sm'
    → work sm'.state.state ≡ some w
    → (work sm.state.state ≡ some w) ⊎ (graph_of sm.cfg w ≡ some w.active_graph)
unfolding process_contract_event process_assignment dispatch assign process_deposit_confirmation
    clear_pog_cache notify_new_block block_duty with_graph_sigs process_claim_verification_failure
    process_assertion_verification_failure
event-work calls (deposit_setup signer btc_key stake_hash stake_txid wots_keys) sm sm' w h at =
    inl (
      Gathers-work sm sm' w
        (setup_event-Gathers calls (deposit_setup signer btc_key stake_hash stake_txid wots_keys) sm
          sm' refl h)
        at)
event-work calls (graph_nonces signer claim_txid nonces) sm sm' w h at = inl (
    Gathers-work sm sm' w
      (setup_event-Gathers calls (graph_nonces signer claim_txid nonces) sm sm' refl h) at)
event-work calls (graph_sigs signer claim_txid partial_sigs) sm sm' w h at = inl (
    Gathers-work sm sm' w
      (setup_event-Gathers calls (graph_sigs signer claim_txid partial_sigs) sm sm' refl h) at)
event-work calls (aggregated_sigs sigs) sm sm' w h at =
    inl (Gathers-work sm sm' w (setup_event-Gathers calls (aggregated_sigs sigs) sm sm' refl h) at)
event-work calls (root_nonce signer nonce) sm sm' w h at =
    inl
      (Gathers-work sm sm' w (setup_event-Gathers calls (root_nonce signer nonce) sm sm' refl h) at)
event-work calls (root_sig signer sig) sm sm' w h at =
    inl (Gathers-work sm sm' w (setup_event-Gathers calls (root_sig signer sig) sm sm' refl h) at)
event-work calls (assignment entry stake_tx height) sm sm' w h at = ground arith
event-work calls (deposit_confirmation tx) sm sm' w h at = ground arith
event-work calls (peg_out_graph_confirmation tx height) sm sm' w h at = inl (
    Confirms-work calls height tx sm sm' w
      (confirmation-Confirms calls height tx sm sm'
        (sym (after-to_duties (process_peg_out_graph_tx_confirmation calls height tx sm)) ∙ h))
      at)
event-work calls (block height) sm sm' w h at = ground arith
event-work calls claim_failure sm sm' w h at = ground arith
event-work calls assertion_failure sm sm' w h at = ground arith

process_contract_event-IsWellFormed :
    (calls : Calls) (ev : ContractEvent) (sm sm' : ContractSm)
    → after (process_contract_event calls ev sm) ≡ some sm'
    → IsWellFormed sm
    → IsWellFormed sm'
process_contract_event-IsWellFormed calls ev sm sm' h inv = λ w at. ground (
  arith,
  inv w,
  event-work calls ev sm sm' w h at,
  process_contract_event-Progress calls ev sm sm' h,
)

-- In every sequence of events, reassignments and errors included, the active graph stays the one
-- that was set up for the current fulfiller, if it was so at first.
pub run-IsWellFormed :
    (calls : Calls) (evs : List ContractEvent) (sm sm' : ContractSm)
    → IsWellFormed sm
    → run calls evs sm ≡ some sm'
    → (w : Work) → work sm'.state.state ≡ some w
    → graph_of sm'.cfg w ≡ some w.active_graph
unfolding run
run-IsWellFormed calls [] sm sm' inv h = let e : sm' ≡ sm = ground arith in rw e inv
run-IsWellFormed calls (ev ∷ evs) sm sm' inv h =
    elim (Option-cases (after (process_contract_event calls ev sm))) [
      | inl crash ↦ absurd (ground arith)
      | inr (mid, e) ↦
          run-IsWellFormed calls evs mid sm'
            (process_contract_event-IsWellFormed calls ev sm mid e inv) (ground arith)
    ]
