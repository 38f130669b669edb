-- ===== src/Contract/AssertData.antt =====
-- The collection of the assert data transactions (process_assert_data_confirmation and
-- process_post_assert_confirmation of crates/duty-tracker/src/contract_state_machine.rs).
use strata_bridge.Prelude
use strata_bridge.Prelude.{
  ℕ, suc, ◌≤◌, Bool, true, false, Option, none, some, List, [], ◌∷◌, ◌≡◌, ◌≢◌, ◌⊎◌, inl, inr, refl,
  sym, ◌∙◌, arith, Option-cases, length, contains, Bool-cases, ◌==◌, not, ltb, Run, done,
}
use strata_bridge.Prelude.BTreeMap.{
  BTreeMap, get, insert, contains_key, keys, IsSorted, insert-IsSorted, get-insert,
}
use strata_bridge.Prelude.Cover.{IsWithin, IsWithin-covers, length-IsWithin, length-keys}
use strata_bridge.Prelude.Array.{to_list, length-to_list}
use strata_bridge.Bitcoin.{Transaction}
use strata_bridge.PogMusig.{num_assert_data_tx}
use strata_bridge.TxGraph.Witnesses.{parse_witnesses}
use strata_bridge.Contract.Types.{
  AssertDataConfirmed, ContractState, ContractSm, pre_assert_confirmed, assert_data_confirmed,
}
use strata_bridge.Contract.Duties.{
  ContractEvent, Calls, deposit_setup, graph_nonces, graph_sigs, aggregated_sigs, root_nonce,
  root_sig, assignment, deposit_confirmation, peg_out_graph_confirmation, block, claim_failure,
  assertion_failure, rejected, panicked, bad_witness,
}
use strata_bridge.Contract.Chain.{
  process_fulfillment_confirmation, process_claim_confirmation, process_claim_verification_failure,
  process_challenge_confirmation, confirm_pre_assert, process_pre_assert_confirmation,
}
use strata_bridge.Contract.Assertion.{
  all_assert_data_confirmed, process_assert_data_confirmation, collect_assert_data,
  process_post_assert_confirmation, process_assertion_verification_failure,
  process_disprove_confirmation, process_optimistic_payout_confirmation,
  process_defended_payout_confirmation,
}
use strata_bridge.Contract.Confirms.{
  after, after-to_duties, Confirms, ignored, by_fulfillment, by_claim, by_challenge,
  by_optimistic_payout, by_pre_assert, by_assert_data, by_post_assert, by_disprove,
  by_defended_payout, confirmation-Confirms,
}
use strata_bridge.Contract.Phase.{phase, in_asserted}
use strata_bridge.Contract.Progress.{run}
use strata_bridge.Contract.Keeps.{Gathers}
use strata_bridge.Contract.Gathering.{setup_event-Gathers}
use strata_bridge.Contract.Machine.{
  process_peg_out_graph_tx_confirmation, clear_pog_cache, process_deposit_confirmation,
  process_contract_event,
}
use strata_bridge.Contract.Height.{with_graph_sigs, block_duty, notify_new_block}
use strata_bridge.Contract.Assignment.{assign, dispatch, process_assignment}

-- The transactions collected so far, and the ids of those that are wanted.
abbrev pub txs_of : ContractState → BTreeMap Transaction
txs_of (pre_assert_confirmed s) = s.signed_assert_data_txs
txs_of (assert_data_confirmed s) = s.signed_assert_data_txs
txs_of _ = []

abbrev pub ids_of : ContractState → List ℕ
ids_of (pre_assert_confirmed s) = to_list s.active_graph.1.assert_data_txids
ids_of (assert_data_confirmed s) = to_list s.active_graph.1.assert_data_txids
ids_of _ = []

-- Enough transactions are there once they are said to be.
abbrev pub enough : ContractState → Bool
enough (assert_data_confirmed s) = not (ltb (length s.signed_assert_data_txs) num_assert_data_tx)
enough _ = true

pub record IsCollecting (s : ContractState) : Type 0 where
  pub sorted : IsSorted (txs_of s)
  pub within : IsWithin (txs_of s) (ids_of s)
  pub all_there : enough s ≡ true

empty-IsCollecting : (s : ContractState) → txs_of s ≡ [] → enough s ≡ true → IsCollecting s
unfolding get contains_key
empty-IsCollecting s e n = record {
  sorted = rw e tt;
  within = rw e (λ k h. ground arith);
  all_there = n;
}

collects-IsCollecting :
    (s s' : ContractState) (txid : ℕ) (tx : Transaction)
    → txs_of s' ≡ insert txid tx (txs_of s)
    → ids_of s' ≡ ids_of s
    → contains (ids_of s) txid ≡ true
    → enough s' ≡ true
    → IsCollecting s
    → IsCollecting s'
unfolding contains_key
collects-IsCollecting s s' txid tx e ids at n c = record {
  sorted = rw e (insert-IsSorted txid tx (txs_of s) c.sorted);
  within = rw (e, ids) (λ k h. ground (arith, c.within k, get-insert txid k tx (txs_of s)));
  all_there = n;
}

assert_data-collects :
    (calls : Calls) (tx : Transaction) (sm sm' : ContractSm)
    → after (process_assert_data_confirmation calls tx sm) ≡ some sm'
    → (sm' ≡ sm)
      ⊎ ((txs_of sm'.state.state ≡ insert (calls.compute_txid tx) tx (txs_of sm.state.state))
          × (ids_of sm'.state.state ≡ ids_of sm.state.state)
          × (contains (ids_of sm.state.state) (calls.compute_txid tx) ≡ true)
          × (enough sm'.state.state ≡ true))
unfolding process_assert_data_confirmation all_assert_data_confirmed
assert_data-collects calls tx sm sm' h = ground arith

-- Every other event leaves the collection as it was, or leaves none.
abbrev Aside : ContractSm → ContractSm → Type 0
Aside sm sm' =
    (sm'.state.state ≡ sm.state.state)
    ⊎ ((txs_of sm'.state.state ≡ []) × (enough sm'.state.state ≡ true))

Aside-IsCollecting :
    (sm sm' : ContractSm)
    → Aside sm sm'
    → IsCollecting sm.state.state
    → IsCollecting sm'.state.state
Aside-IsCollecting sm sm' (inl e) c = rw e c
Aside-IsCollecting sm sm' (inr (e, n)) c = empty-IsCollecting sm'.state.state e n

Gathers-Aside : (sm sm' : ContractSm) → Gathers sm sm' → Aside sm sm'
Gathers-Aside sm sm' h = ground arith

module _ (calls : Calls) (height : ℕ) (tx : Transaction) (sm sm' : ContractSm) where
  other-Aside :
      (after (process_fulfillment_confirmation calls height tx sm) ≡ some sm')
        ⊎ (after (process_claim_confirmation calls height tx sm) ≡ some sm')
        ⊎ (after (process_challenge_confirmation calls tx sm) ≡ some sm')
        ⊎ (after (process_pre_assert_confirmation calls tx sm) ≡ some sm')
        ⊎ (after (process_optimistic_payout_confirmation calls tx sm) ≡ some sm')
        ⊎ (after (process_defended_payout_confirmation calls tx sm) ≡ some sm')
        ⊎ (after (process_post_assert_confirmation calls tx height sm) ≡ some sm')
        ⊎ (after (process_disprove_confirmation calls tx sm) ≡ some sm')
      → Aside sm sm'
  unfolding process_fulfillment_confirmation process_claim_confirmation
      process_challenge_confirmation process_pre_assert_confirmation confirm_pre_assert
      process_post_assert_confirmation process_disprove_confirmation
      process_optimistic_payout_confirmation process_defended_payout_confirmation
  other-Aside h = ground arith

  Confirms-IsCollecting :
      Confirms calls height tx sm sm' → IsCollecting sm.state.state → IsCollecting sm'.state.state
  Confirms-IsCollecting (ignored h) c = rw h c
  Confirms-IsCollecting (by_assert_data h) c = elim (assert_data-collects calls tx sm sm' h) [
    | inl e ↦ rw e c
    | inr (e, ids, at, n) ↦
        collects-IsCollecting sm.state.state sm'.state.state (calls.compute_txid tx) tx e ids at n c
  ]
  Confirms-IsCollecting (by_fulfillment h) c =
      Aside-IsCollecting sm sm' (ground (arith, other-Aside)) c
  Confirms-IsCollecting (by_claim h) c = Aside-IsCollecting sm sm' (ground (arith, other-Aside)) c
  Confirms-IsCollecting (by_challenge h) c =
      Aside-IsCollecting sm sm' (ground (arith, other-Aside)) c
  Confirms-IsCollecting (by_optimistic_payout h) c =
      Aside-IsCollecting sm sm' (ground (arith, other-Aside)) c
  Confirms-IsCollecting (by_pre_assert h) c =
      Aside-IsCollecting sm sm' (ground (arith, other-Aside)) c
  Confirms-IsCollecting (by_post_assert h) c =
      Aside-IsCollecting sm sm' (ground (arith, other-Aside)) c
  Confirms-IsCollecting (by_disprove h) c =
      Aside-IsCollecting sm sm' (ground (arith, other-Aside)) c
  Confirms-IsCollecting (by_defended_payout h) c =
      Aside-IsCollecting sm sm' (ground (arith, other-Aside)) c

process_contract_event-IsCollecting :
    (calls : Calls) (ev : ContractEvent) (sm sm' : ContractSm)
    → after (process_contract_event calls ev sm) ≡ some sm'
    → IsCollecting sm.state.state
    → IsCollecting sm'.state.state
unfolding process_contract_event process_assignment dispatch assign process_deposit_confirmation
    clear_pog_cache notify_new_block block_duty with_graph_sigs process_claim_verification_failure
    process_assertion_verification_failure
process_contract_event-IsCollecting calls (peg_out_graph_confirmation tx height) sm sm' h c =
    Confirms-IsCollecting calls height tx sm sm'
      (confirmation-Confirms calls height tx sm sm'
        (sym (after-to_duties (process_peg_out_graph_tx_confirmation calls height tx sm)) ∙ h))
      c
process_contract_event-IsCollecting calls
      (deposit_setup signer btc_key stake_hash stake_txid wots_keys) sm sm' h c =
    Aside-IsCollecting sm sm'
      (Gathers-Aside sm sm' (
        setup_event-Gathers calls (deposit_setup signer btc_key stake_hash stake_txid wots_keys) sm
          sm' refl h))
      c
process_contract_event-IsCollecting calls (graph_nonces signer claim_txid nonces) sm sm' h c =
    Aside-IsCollecting sm sm'
      (Gathers-Aside sm sm'
        (setup_event-Gathers calls (graph_nonces signer claim_txid nonces) sm sm' refl h))
      c
process_contract_event-IsCollecting calls (graph_sigs signer claim_txid partial_sigs) sm sm' h c =
    Aside-IsCollecting sm sm'
      (Gathers-Aside sm sm'
        (setup_event-Gathers calls (graph_sigs signer claim_txid partial_sigs) sm sm' refl h))
      c
process_contract_event-IsCollecting calls (aggregated_sigs sigs) sm sm' h c =
    Aside-IsCollecting sm sm'
      (Gathers-Aside sm sm' (setup_event-Gathers calls (aggregated_sigs sigs) sm sm' refl h)) c
process_contract_event-IsCollecting calls (root_nonce signer nonce) sm sm' h c =
    Aside-IsCollecting sm sm'
      (Gathers-Aside sm sm' (setup_event-Gathers calls (root_nonce signer nonce) sm sm' refl h)) c
process_contract_event-IsCollecting calls (root_sig signer sig) sm sm' h c =
    Aside-IsCollecting sm sm'
      (Gathers-Aside sm sm' (setup_event-Gathers calls (root_sig signer sig) sm sm' refl h)) c
process_contract_event-IsCollecting calls (assignment entry stake_tx height) sm sm' h c =
    Aside-IsCollecting sm sm' (ground arith) c
process_contract_event-IsCollecting calls (deposit_confirmation tx) sm sm' h c =
    Aside-IsCollecting sm sm' (ground arith) c
process_contract_event-IsCollecting calls (block height) sm sm' h c =
    Aside-IsCollecting sm sm' (ground arith) c
process_contract_event-IsCollecting calls claim_failure sm sm' h c =
    Aside-IsCollecting sm sm' (ground arith) c
process_contract_event-IsCollecting calls assertion_failure sm sm' h c =
    Aside-IsCollecting sm sm' (ground arith) c

run-IsCollecting :
    (calls : Calls) (evs : List ContractEvent) (sm sm' : ContractSm)
    → IsCollecting sm.state.state
    → run calls evs sm ≡ some sm'
    → IsCollecting sm'.state.state
unfolding run
run-IsCollecting calls [] sm sm' c h = let e : sm' ≡ sm = ground arith in rw e c
run-IsCollecting calls (ev ∷ evs) sm sm' c h =
    elim (Option-cases (after (process_contract_event calls ev sm))) [
      | inl crash ↦ absurd (ground arith)
      | inr (mid, e) ↦
          run-IsCollecting calls evs mid sm'
            (process_contract_event-IsCollecting calls ev sm mid e c) (ground arith)
    ]

collect_assert_data-ok :
    (txs : BTreeMap Transaction) (ids : List ℕ)
    → ((k : ℕ) → contains ids k ≡ true → contains_key k txs ≡ true)
    → (found : List Transaction) × (collect_assert_data txs ids ≡ Prelude.ok found)
      × (length found ≡ length ids)
unfolding collect_assert_data contains_key
collect_assert_data-ok txs [] h = ([], refl, refl)
collect_assert_data-ok txs (id ∷ ids) h = elim (Option-cases (get id txs)) [
  | inl missing ↦ absurd (ground (arith, h id))
  | inr (tx, at) ↦
      let (found, e, n) = collect_assert_data-ok txs ids (λ k in_ids. ground (arith, h k)) in
      (tx ∷ found, ground arith, ground arith)
]

abbrev pub read_witnesses : Calls → List Transaction → Run (Option ℕ)
read_witnesses calls = parse_witnesses calls.debug calls.parse_assertion_witnesses

readings :
    (r : Run (Option ℕ))
    → ((commitment : ℕ) × (r ≡ done (some commitment))) ⊎ (r ≡ done none) ⊎ (r ≡ Prelude.panicked)
readings (done (some commitment)) = inl (commitment, refl)
readings (done none) = inr (inl refl)
readings Prelude.panicked = inr (inr refl)

asserted_after :
    (calls : Calls) (tx : Transaction) (height : ℕ) (sm : ContractSm) (s : AssertDataConfirmed)
    → (txs : List Transaction) (commitment : ℕ) → sm.state.state ≡ assert_data_confirmed s
    → collect_assert_data s.signed_assert_data_txs (to_list s.active_graph.1.assert_data_txids)
      ≡ Prelude.ok txs
    → length (keys s.signed_assert_data_txs) ≡ num_assert_data_tx
    → calls.compute_txid tx ≡ s.active_graph.1.post_assert_txid
    → read_witnesses calls txs ≡ done (some commitment)
    → (sm' : ContractSm) × (after (process_post_assert_confirmation calls tx height sm) ≡ some sm')
      × (phase sm'.state.state ≡ in_asserted)
unfolding process_post_assert_confirmation
asserted_after calls tx height sm s txs commitment at e n is_post parsed =
    elim (Option-cases (after (process_post_assert_confirmation calls tx height sm))) [
      | inl crash ↦ absurd (ground arith)
      | inr (sm', h) ↦ (sm', h, ground arith)
    ]

-- What the confirmation of the post-assert transaction comes to, by how the witnesses of the
-- collected transactions are read: an assertion, an error that leaves the machine as it is, or the
-- panic of the reading.
abbrev pub IsSettled : Calls → Transaction → ℕ → ContractSm → List Transaction → Type 0
IsSettled calls tx height sm txs =
    ((commitment : ℕ) × (read_witnesses calls txs ≡ done (some commitment))
      × (sm' : ContractSm) × (after (process_post_assert_confirmation calls tx height sm)
          ≡ some sm')
      × (phase sm'.state.state ≡ in_asserted))
    ⊎ ((read_witnesses calls txs ≡ done none)
        × (process_post_assert_confirmation calls tx height sm ≡ rejected bad_witness sm))
    ⊎ ((read_witnesses calls txs ≡ Prelude.panicked)
        × (process_post_assert_confirmation calls tx height sm ≡ panicked))

post_assert-IsSettled :
    (calls : Calls) (tx : Transaction) (height : ℕ) (sm : ContractSm) (s : AssertDataConfirmed)
    → (txs : List Transaction) → sm.state.state ≡ assert_data_confirmed s
    → collect_assert_data s.signed_assert_data_txs (to_list s.active_graph.1.assert_data_txids)
      ≡ Prelude.ok txs
    → length (keys s.signed_assert_data_txs) ≡ num_assert_data_tx
    → calls.compute_txid tx ≡ s.active_graph.1.post_assert_txid
    → IsSettled calls tx height sm txs
unfolding process_post_assert_confirmation
post_assert-IsSettled calls tx height sm s txs at e n is_post =
    elim (readings (read_witnesses calls txs)) [
      | inl (commitment, parsed) ↦
          let (sm', left, phase') =
            asserted_after calls tx height sm s txs commitment at e n is_post parsed in
          inl (commitment, parsed, sm', left, phase')
      | inr (inl unreadable) ↦ inr (inl (unreadable, ground arith))
      | inr (inr crash) ↦ inr (inr (crash, ground arith))
    ]

-- Whenever events lead to the state where all assert data is confirmed, from a state whose
-- collected transactions are in order, among the wanted ones, and all there if it says that all are
-- confirmed, the collection is complete: each wanted transaction is found, as many as the array has
-- places, so the conversion does not panic. The confirmation of the post-assert transaction then
-- leads to an assertion if the witnesses of these transactions can be read, is an error that
-- changes nothing if they are bad, and panics only if the reading of them does.
pub run-assert_data_complete :
    (calls : Calls) (evs : List ContractEvent) (start sm : ContractSm) (s : AssertDataConfirmed)
    → (tx : Transaction) (height : ℕ) → IsCollecting start.state.state
    → run calls evs start ≡ some sm
    → sm.state.state ≡ assert_data_confirmed s
    → calls.compute_txid tx ≡ s.active_graph.1.post_assert_txid
    → (txs : List Transaction) × (collect_assert_data s.signed_assert_data_txs
          (to_list s.active_graph.1.assert_data_txids)
        ≡ Prelude.ok txs)
      × (length txs ≡ num_assert_data_tx)
      × IsSettled calls tx height sm txs
run-assert_data_complete calls evs start sm s tx height c h at is_post =
    let c' : IsCollecting (assert_data_confirmed s) =
      rw (sym at) (run-IsCollecting calls evs start sm c h) in
    let ids = to_list s.active_graph.1.assert_data_txids in
    let n : length ids ≡ num_assert_data_tx = length-to_list s.active_graph.1.assert_data_txids in
    let most : length s.signed_assert_data_txs ≤ length ids =
      length-IsWithin ids s.signed_assert_data_txs c'.sorted c'.within in
    let least : length ids ≤ length s.signed_assert_data_txs = ground (arith, c'.all_there) in
    let (txs, e, m) = collect_assert_data-ok s.signed_assert_data_txs ids (λ k in_ids.
      IsWithin-covers ids s.signed_assert_data_txs k c'.sorted c'.within least in_ids) in
    (
      txs,
      e,
      ground arith,
      post_assert-IsSettled calls tx height sm s txs at e
          (ground (arith, length-keys s.signed_assert_data_txs)) is_post,
    )
