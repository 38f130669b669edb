-- ===== src/Contract/Confirms.antt =====
-- Which handler a confirmation reaches (process_peg_out_graph_tx_confirmation of
-- crates/duty-tracker/src/contract_state_machine.rs), and the machine that a call leaves.
use strata_bridge.Prelude.{ℕ, Option, none, some, ◌≡◌, ◌⊎◌, inl, inr, refl, arith}
use strata_bridge.Prelude.BTreeMap.{BTreeMap}
use strata_bridge.Bitcoin.{Transaction}
use strata_bridge.PogMusig.{PogMusigF}
use strata_bridge.Contract.Types.{
  Graph, Claimed, Asserted, ContractState, ContractSm, requested, deposited, assigned, fulfilled,
  claimed, challenged, pre_assert_confirmed, assert_data_confirmed, asserted, disproved, resolved,
  aborted,
}
use strata_bridge.Contract.Duties.{
  TransitionErr, Reply, Outcome, to_duties, or_else, Calls, accepted, rejected, panicked,
}
use strata_bridge.Contract.Chain.{
  process_fulfillment_confirmation, process_claim_confirmation, process_challenge_confirmation,
  process_pre_assert_confirmation,
}
use strata_bridge.Contract.Assertion.{
  process_assert_data_confirmation, process_post_assert_confirmation, process_disprove_confirmation,
  process_optimistic_payout_confirmation, process_defended_payout_confirmation,
}
use strata_bridge.Contract.Machine.{process_peg_out_graph_tx_confirmation}

-- The machine that a call leaves, whatever its result.
abbrev pub after : {D : Type 0} → Reply D → Option ContractSm
after (accepted duty sm) = some sm
after (rejected e sm) = some sm
after panicked = none

pub after-to_duties : (o : Outcome) → after (to_duties o) ≡ after o
after-to_duties (accepted none sm) = refl
after-to_duties (accepted (some duty) sm) = refl
after-to_duties (rejected e sm) = refl
after-to_duties panicked = refl

-- What a contract carries from its assignment on.
pub record Work : Type 0 where
  pub peg_out_graphs : BTreeMap Graph
  pub claim_txids : BTreeMap ℕ
  pub graph_sigs : BTreeMap (PogMusigF ℕ)
  pub fulfiller : ℕ
  pub active_graph : Graph
  pub withdrawal_request_txid : ℕ

abbrev pub work : ContractState → Option Work
work (assigned s) = some (record {
  peg_out_graphs = s.peg_out_graphs;
  claim_txids = s.claim_txids;
  graph_sigs = s.graph_sigs;
  fulfiller = s.fulfiller;
  active_graph = s.active_graph;
  withdrawal_request_txid = s.withdrawal_request_txid;
})
work (fulfilled s) = some (record {
  peg_out_graphs = s.peg_out_graphs;
  claim_txids = s.claim_txids;
  graph_sigs = s.graph_sigs;
  fulfiller = s.fulfiller;
  active_graph = s.active_graph;
  withdrawal_request_txid = s.withdrawal_request_txid;
})
work (claimed s) = some (record {
  peg_out_graphs = s.peg_out_graphs;
  claim_txids = s.claim_txids;
  graph_sigs = s.graph_sigs;
  fulfiller = s.fulfiller;
  active_graph = s.active_graph;
  withdrawal_request_txid = s.withdrawal_request_txid;
})
work (challenged s) = some (record {
  peg_out_graphs = s.peg_out_graphs;
  claim_txids = s.claim_txids;
  graph_sigs = s.graph_sigs;
  fulfiller = s.fulfiller;
  active_graph = s.active_graph;
  withdrawal_request_txid = s.withdrawal_request_txid;
})
work (pre_assert_confirmed s) = some (record {
  peg_out_graphs = s.peg_out_graphs;
  claim_txids = s.claim_txids;
  graph_sigs = s.graph_sigs;
  fulfiller = s.fulfiller;
  active_graph = s.active_graph;
  withdrawal_request_txid = s.withdrawal_request_txid;
})
work (assert_data_confirmed s) = some (record {
  peg_out_graphs = s.peg_out_graphs;
  claim_txids = s.claim_txids;
  graph_sigs = s.graph_sigs;
  fulfiller = s.fulfiller;
  active_graph = s.active_graph;
  withdrawal_request_txid = s.withdrawal_request_txid;
})
work (asserted s) = some (record {
  peg_out_graphs = s.peg_out_graphs;
  claim_txids = s.claim_txids;
  graph_sigs = s.graph_sigs;
  fulfiller = s.fulfiller;
  active_graph = s.active_graph;
  withdrawal_request_txid = s.withdrawal_request_txid;
})
work _ = none

-- The handler whose result is the machine that a confirmation leaves.
pub data Confirms (calls : Calls) (height : ℕ) (tx : Transaction) (sm sm' : ContractSm)
    : Type 0 where
  ignored : sm' ≡ sm → Confirms calls height tx sm sm'
  by_fulfillment :
      after (process_fulfillment_confirmation calls height tx sm) ≡ some sm'
      → Confirms calls height tx sm sm'
  by_claim :
      after (process_claim_confirmation calls height tx sm) ≡ some sm'
      → Confirms calls height tx sm sm'
  by_challenge :
      after (process_challenge_confirmation calls tx sm) ≡ some sm'
      → Confirms calls height tx sm sm'
  by_optimistic_payout :
      after (process_optimistic_payout_confirmation calls tx sm) ≡ some sm'
      → Confirms calls height tx sm sm'
  by_pre_assert :
      after (process_pre_assert_confirmation calls tx sm) ≡ some sm'
      → Confirms calls height tx sm sm'
  by_assert_data :
      after (process_assert_data_confirmation calls tx sm) ≡ some sm'
      → Confirms calls height tx sm sm'
  by_post_assert :
      after (process_post_assert_confirmation calls tx height sm) ≡ some sm'
      → Confirms calls height tx sm sm'
  by_disprove :
      after (process_disprove_confirmation calls tx sm) ≡ some sm' → Confirms calls height tx sm sm'
  by_defended_payout :
      after (process_defended_payout_confirmation calls tx sm) ≡ some sm'
      → Confirms calls height tx sm sm'

or_else-after :
    (o : Outcome) (f : ContractSm → Outcome) (sm sm' : ContractSm)
    → ((e : TransitionErr) (mid : ContractSm) → o ≡ rejected e mid → mid ≡ sm)
    → after (or_else o f) ≡ some sm'
    → (after o ≡ some sm') ⊎ (after (f sm) ≡ some sm')
or_else-after (accepted duty mid) f sm sm' kept h = inl h
or_else-after (rejected e mid) f sm sm' kept h = let same = kept e mid refl in inr (ground arith)
or_else-after panicked f sm sm' kept h = inl h

module _ (calls : Calls) (tx : Transaction) (sm mid : ContractSm) (e : TransitionErr) where
  process_challenge_confirmation-rejected :
      process_challenge_confirmation calls tx sm ≡ rejected e mid → mid ≡ sm
  unfolding process_challenge_confirmation
  process_challenge_confirmation-rejected h = ground arith

  process_optimistic_payout_confirmation-rejected :
      process_optimistic_payout_confirmation calls tx sm ≡ rejected e mid → mid ≡ sm
  unfolding process_optimistic_payout_confirmation
  process_optimistic_payout_confirmation-rejected h = ground arith

  process_disprove_confirmation-rejected :
      process_disprove_confirmation calls tx sm ≡ rejected e mid → mid ≡ sm
  unfolding process_disprove_confirmation
  process_disprove_confirmation-rejected h = ground arith

module _ (calls : Calls) (height : ℕ) (tx : Transaction) (sm sm' : ContractSm) where
  claimed-Confirms :
      (s : Claimed)
      → sm.state.state ≡ claimed s
      → after (process_peg_out_graph_tx_confirmation calls height tx sm) ≡ some sm'
      → Confirms calls height tx sm sm'
  unfolding process_peg_out_graph_tx_confirmation
  claimed-Confirms s at h =
      elim (or_else-after (process_challenge_confirmation calls tx sm)
        (λ mid.
          or_else (process_optimistic_payout_confirmation calls tx mid)
            (λ last. process_pre_assert_confirmation calls tx last))
        sm sm' (λ e mid r. process_challenge_confirmation-rejected calls tx sm mid e r)
        (ground arith)) [
          | inl first ↦ by_challenge first
          | inr later ↦
              elim (or_else-after (process_optimistic_payout_confirmation calls tx sm)
                (λ last. process_pre_assert_confirmation calls tx last) sm sm'
                (λ e mid r. process_optimistic_payout_confirmation-rejected calls tx sm mid e r)
                later) [
                  | inl second ↦ by_optimistic_payout second
                  | inr third ↦ by_pre_assert third
                ]
        ]

  asserted-Confirms :
      (s : Asserted)
      → sm.state.state ≡ asserted s
      → after (process_peg_out_graph_tx_confirmation calls height tx sm) ≡ some sm'
      → Confirms calls height tx sm sm'
  unfolding process_peg_out_graph_tx_confirmation
  asserted-Confirms s at h =
      elim (or_else-after (process_disprove_confirmation calls tx sm)
        (λ mid. process_defended_payout_confirmation calls tx mid) sm sm'
        (λ e mid r. process_disprove_confirmation-rejected calls tx sm mid e r) (ground arith)) [
          | inl first ↦ by_disprove first
          | inr second ↦ by_defended_payout second
        ]

  state-Confirms :
      (s : ContractState)
      → sm.state.state ≡ s
      → after (process_peg_out_graph_tx_confirmation calls height tx sm) ≡ some sm'
      → Confirms calls height tx sm sm'
  unfolding process_peg_out_graph_tx_confirmation
  state-Confirms (requested s) at h = ignored (ground arith)
  state-Confirms (deposited s) at h = ignored (ground arith)
  state-Confirms (assigned s) at h = by_fulfillment (ground arith)
  state-Confirms (fulfilled s) at h = by_claim (ground arith)
  state-Confirms (claimed s) at h = claimed-Confirms s at h
  state-Confirms (challenged s) at h = by_pre_assert (ground arith)
  state-Confirms (pre_assert_confirmed s) at h = by_assert_data (ground arith)
  state-Confirms (assert_data_confirmed s) at h = by_post_assert (ground arith)
  state-Confirms (asserted s) at h = asserted-Confirms s at h
  state-Confirms disproved at h = ignored (ground arith)
  state-Confirms (resolved s) at h = ignored (ground arith)
  state-Confirms aborted at h = ignored (ground arith)

pub confirmation-Confirms :
    (calls : Calls) (height : ℕ) (tx : Transaction) (sm sm' : ContractSm)
    → after (process_peg_out_graph_tx_confirmation calls height tx sm) ≡ some sm'
    → Confirms calls height tx sm sm'
confirmation-Confirms calls height tx sm sm' h =
    state-Confirms calls height tx sm sm' sm.state.state refl h
