-- ===== src/Contract/Filter.antt =====
-- The filter of a contract lets through the transactions that its state machine acts on
-- (`transaction_filter` of crates/duty-tracker/src/contract_state_machine.rs).
use strata_bridge.Prelude.{
  ℕ, Bool, true, false, Option, none, some, List, [], ◌∷◌, ◌≡◌, ◌≢◌, ◌⊎◌, inl, inr, refl, arith,
  Option-cases, contains, Bool-cases, ◌==◌, any, ◌||◌, done,
}
use strata_bridge.Prelude.BTreeMap.{BTreeMap, get, keys}
use strata_bridge.Operators.{idx_to_p2p_key, operator_idxs}
use strata_bridge.Bitcoin.{Transaction}
use strata_bridge.PegOutGraph.{PegOutGraphSummary}
use strata_bridge.Contract.Types.{Graph, ContractCfg, Assigned, ContractState, ContractSm, assigned}
use strata_bridge.Contract.Duties.{Calls}
use strata_bridge.Contract.Predicates.{is_fulfillment_tx}
use strata_bridge.Contract.State.{summaries, get_summaries}
use strata_bridge.Contract.Chain.{
  deposit_txid, process_fulfillment_confirmation, process_claim_confirmation,
  process_challenge_confirmation, confirm_pre_assert, process_pre_assert_confirmation,
}
use strata_bridge.Contract.Assertion.{
  all_assert_data_confirmed, process_assert_data_confirmation, process_post_assert_confirmation,
  process_disprove_confirmation, process_optimistic_payout_confirmation,
  process_defended_payout_confirmation,
}
use strata_bridge.Contract.Confirms.{
  after, Work, work, Confirms, ignored, by_fulfillment, by_claim, by_challenge,
  by_optimistic_payout, by_pre_assert, by_assert_data, by_post_assert, by_disprove,
  by_defended_payout, confirmation-Confirms,
}
use strata_bridge.Contract.Invariant.{IsWellFormed, graph_of}
use strata_bridge.Contract.Machine.{process_peg_out_graph_tx_confirmation}
use strata_bridge.Contract.Watch.{in_graph, any_fulfillment, filter_graphs, transaction_filter}

any-summary :
    (p : PegOutGraphSummary → Bool) (m : BTreeMap Graph) (k : ℕ) (g : Graph)
    → get k m ≡ some g
    → p g.1 ≡ true
    → any p (get_summaries m) ≡ true
unfolding get
any-summary p [] k g at h = cc
any-summary p ((j, v) ∷ m) k g at h = ground (arith, any-summary p m k g)

graph_of-get :
    (cfg : ContractCfg) (w : Work) (g : Graph)
    → graph_of cfg w ≡ some g
    → (k : ℕ) × (get k w.peg_out_graphs ≡ some g)
graph_of-get cfg w g h = elim (Option-cases (idx_to_p2p_key cfg.operator_table w.fulfiller)) [
  | inl nobody ↦ absurd (ground arith)
  | inr (key, known) ↦ elim (Option-cases (get key w.claim_txids)) [
    | inl unclaimed ↦ absurd (ground arith)
    | inr (claim_txid, known_claim) ↦ (claim_txid, ground arith)
  ]
]

-- Is it a transaction of the graph that is worked on?
abbrev in_work : Calls → Transaction → Option Work → Bool
in_work calls tx none = false
in_work calls tx (some w) = in_graph calls tx w.active_graph.1

filter_graphs-in_work :
    (calls : Calls) (tx : Transaction) (sm : ContractSm)
    → IsWellFormed sm
    → in_work calls tx (work sm.state.state) ≡ true
    → filter_graphs calls tx sm ≡ true
unfolding filter_graphs summaries
filter_graphs-in_work calls tx sm inv h = elim (Option-cases (work sm.state.state)) [
  | inl idle ↦ absurd (ground arith)
  | inr (w, at) ↦
      let (k, found) = graph_of-get sm.cfg w w.active_graph (inv w at) in
      ground (
        arith,
        any-summary (λ g. deposit_txid calls sm == calls.compute_txid tx || in_graph calls tx g)
            w.peg_out_graphs k w.active_graph found,
      )
]

abbrev assigned_of : ContractState → Option Assigned
assigned_of (assigned s) = some s
assigned_of _ = none

-- The machine did not move, or the transaction is one of the graph that is worked on.
abbrev Seen : Calls → Transaction → ContractSm → ContractSm → Type 0
Seen calls tx sm sm' =
    (sm' ≡ sm)
    ⊎ ((assigned_of sm.state.state ≡ none) × (in_work calls tx (work sm.state.state) ≡ true))

module _ (calls : Calls) (height : ℕ) (tx : Transaction) (sm sm' : ContractSm) where
  process_claim_confirmation-Seen :
      after (process_claim_confirmation calls height tx sm) ≡ some sm' → Seen calls tx sm sm'
  unfolding process_claim_confirmation in_graph
  process_claim_confirmation-Seen h = ground arith

  process_challenge_confirmation-Seen :
      after (process_challenge_confirmation calls tx sm) ≡ some sm' → Seen calls tx sm sm'
  unfolding process_challenge_confirmation in_graph
  process_challenge_confirmation-Seen h = ground arith

  process_pre_assert_confirmation-Seen :
      after (process_pre_assert_confirmation calls tx sm) ≡ some sm' → Seen calls tx sm sm'
  unfolding process_pre_assert_confirmation confirm_pre_assert in_graph
  process_pre_assert_confirmation-Seen h = ground arith

  process_assert_data_confirmation-Seen :
      after (process_assert_data_confirmation calls tx sm) ≡ some sm' → Seen calls tx sm sm'
  unfolding process_assert_data_confirmation all_assert_data_confirmed in_graph
  process_assert_data_confirmation-Seen h = ground arith

  process_post_assert_confirmation-Seen :
      after (process_post_assert_confirmation calls tx height sm) ≡ some sm' → Seen calls tx sm sm'
  unfolding process_post_assert_confirmation in_graph
  process_post_assert_confirmation-Seen h = ground arith

  process_disprove_confirmation-Seen :
      after (process_disprove_confirmation calls tx sm) ≡ some sm' → Seen calls tx sm sm'
  unfolding process_disprove_confirmation in_graph
  process_disprove_confirmation-Seen h = ground arith

  process_optimistic_payout_confirmation-Seen :
      after (process_optimistic_payout_confirmation calls tx sm) ≡ some sm' → Seen calls tx sm sm'
  unfolding process_optimistic_payout_confirmation in_graph
  process_optimistic_payout_confirmation-Seen h = ground arith

  process_defended_payout_confirmation-Seen :
      after (process_defended_payout_confirmation calls tx sm) ≡ some sm' → Seen calls tx sm sm'
  unfolding process_defended_payout_confirmation in_graph
  process_defended_payout_confirmation-Seen h = ground arith

contains-keys : (m : BTreeMap (ℕ × ℕ)) (k : ℕ) → get k m ≢ none → contains (keys m) k ≡ true
unfolding get
contains-keys [] k h = absurd (h refl)
contains-keys ((j, v) ∷ m) k h = elim (Bool-cases (j == k)) [
  | inl e ↦ ground arith
  | inr e ↦ ground (arith, contains-keys m k (λ absent. h (ground arith)))
]

any_fulfillment-contains :
    (calls : Calls) (tx : Transaction) (sm : ContractSm) (recipient idx : ℕ) (idxs : List ℕ)
    → contains idxs idx ≡ true
    → is_fulfillment_tx calls sm.cfg.network sm.cfg.peg_out_graph_params idx sm.cfg.deposit_idx
        (deposit_txid calls sm)
        recipient
        tx
      ≡ done true
    → any_fulfillment calls tx sm recipient idxs ≡ done true
unfolding any_fulfillment is_fulfillment_tx
any_fulfillment-contains calls tx sm recipient idx [] at h = cc
any_fulfillment-contains calls tx sm recipient idx (i ∷ idxs) at h =
    ground (arith, any_fulfillment-contains calls tx sm recipient idx idxs)

graph_of-contains :
    (cfg : ContractCfg) (w : Work) (g : Graph)
    → graph_of cfg w ≡ some g
    → contains (operator_idxs cfg.operator_table) w.fulfiller ≡ true
graph_of-contains cfg w g h =
    contains-keys cfg.operator_table.idx_key w.fulfiller (λ absent. ground arith)

fulfillment-is_fulfillment_tx :
    (calls : Calls) (height : ℕ) (tx : Transaction) (sm sm' : ContractSm) (s : Assigned)
    → sm.state.state ≡ assigned s
    → after (process_fulfillment_confirmation calls height tx sm) ≡ some sm'
    → sm' ≢ sm
    → is_fulfillment_tx calls sm.cfg.network sm.cfg.peg_out_graph_params s.fulfiller
        sm.cfg.deposit_idx
        (deposit_txid calls sm)
        s.recipient
        tx
      ≡ done true
unfolding process_fulfillment_confirmation
fulfillment-is_fulfillment_tx calls height tx sm sm' s at h moved = ground arith

fulfillment-unmoved :
    (calls : Calls) (height : ℕ) (tx : Transaction) (sm sm' : ContractSm)
    → assigned_of sm.state.state ≡ none
    → after (process_fulfillment_confirmation calls height tx sm) ≡ some sm'
    → sm' ≡ sm
unfolding process_fulfillment_confirmation
fulfillment-unmoved calls height tx sm sm' other h = ground arith

assigned_of-assigned :
    (st : ContractState) (s : Assigned) → assigned_of st ≡ some s → st ≡ assigned s
assigned_of-assigned st s h = ground arith

assigned-filter :
    (calls : Calls) (height : ℕ) (tx : Transaction) (sm sm' : ContractSm)
    → IsWellFormed sm
    → after (process_fulfillment_confirmation calls height tx sm) ≡ some sm'
    → sm' ≢ sm
    → transaction_filter calls tx sm ≡ done true
unfolding transaction_filter
assigned-filter calls height tx sm sm' inv h moved =
    elim (Option-cases (assigned_of sm.state.state)) [
      | inl other ↦ absurd (moved (fulfillment-unmoved calls height tx sm sm' other h))
      | inr (s, at_s) ↦
          let at = assigned_of-assigned sm.state.state s at_s in
          let w : Work = record {
            peg_out_graphs = s.peg_out_graphs;
            claim_txids = s.claim_txids;
            graph_sigs = s.graph_sigs;
            fulfiller = s.fulfiller;
            active_graph = s.active_graph;
            withdrawal_request_txid = s.withdrawal_request_txid;
          } in
          let is_tx = fulfillment-is_fulfillment_tx calls height tx sm sm' s at h moved in
          let listed = graph_of-contains sm.cfg w w.active_graph (inv w (ground arith)) in
          let passes =
            any_fulfillment-contains calls tx sm s.recipient s.fulfiller
              (operator_idxs sm.cfg.operator_table) listed is_tx in
          ground arith
    ]

graph-filter :
    (calls : Calls) (tx : Transaction) (sm sm' : ContractSm)
    → IsWellFormed sm
    → Seen calls tx sm sm'
    → sm' ≢ sm
    → transaction_filter calls tx sm ≡ done true
unfolding transaction_filter
graph-filter calls tx sm sm' inv (inl same) moved = absurd (moved same)
graph-filter calls tx sm sm' inv (inr (other, seen)) moved =
    ground (arith, filter_graphs-in_work calls tx sm inv seen)

Confirms-filter :
    (calls : Calls) (height : ℕ) (tx : Transaction) (sm sm' : ContractSm)
    → IsWellFormed sm
    → Confirms calls height tx sm sm'
    → sm' ≢ sm
    → transaction_filter calls tx sm ≡ done true
Confirms-filter calls height tx sm sm' inv (ignored h) moved = absurd (moved h)
Confirms-filter calls height tx sm sm' inv (by_fulfillment h) moved =
    assigned-filter calls height tx sm sm' inv h moved
Confirms-filter calls height tx sm sm' inv (by_claim h) moved =
    graph-filter calls tx sm sm' inv (process_claim_confirmation-Seen calls height tx sm sm' h)
      moved
Confirms-filter calls height tx sm sm' inv (by_challenge h) moved =
    graph-filter calls tx sm sm' inv (process_challenge_confirmation-Seen calls height tx sm sm' h)
      moved
Confirms-filter calls height tx sm sm' inv (by_optimistic_payout h) moved =
    graph-filter calls tx sm sm' inv
      (process_optimistic_payout_confirmation-Seen calls height tx sm sm' h) moved
Confirms-filter calls height tx sm sm' inv (by_pre_assert h) moved =
    graph-filter calls tx sm sm' inv (process_pre_assert_confirmation-Seen calls height tx sm sm' h)
      moved
Confirms-filter calls height tx sm sm' inv (by_assert_data h) moved =
    graph-filter calls tx sm sm' inv
      (process_assert_data_confirmation-Seen calls height tx sm sm' h) moved
Confirms-filter calls height tx sm sm' inv (by_post_assert h) moved =
    graph-filter calls tx sm sm' inv
      (process_post_assert_confirmation-Seen calls height tx sm sm' h) moved
Confirms-filter calls height tx sm sm' inv (by_disprove h) moved =
    graph-filter calls tx sm sm' inv (process_disprove_confirmation-Seen calls height tx sm sm' h)
      moved
Confirms-filter calls height tx sm sm' inv (by_defended_payout h) moved =
    graph-filter calls tx sm sm' inv
      (process_defended_payout_confirmation-Seen calls height tx sm sm' h) moved

-- No transaction that the machine acts on is filtered out: if the confirmation of a transaction
-- changes a machine whose active graph is its fulfiller's, then the filter accepts the transaction.
pub transaction_filter_complete :
    (calls : Calls) (height : ℕ) (tx : Transaction) (sm sm' : ContractSm)
    → ((w : Work) → work sm.state.state ≡ some w → graph_of sm.cfg w ≡ some w.active_graph)
    → after (process_peg_out_graph_tx_confirmation calls height tx sm) ≡ some sm'
    → sm' ≢ sm
    → transaction_filter calls tx sm ≡ done true
transaction_filter_complete calls height tx sm sm' inv h moved =
    Confirms-filter calls height tx sm sm' inv (confirmation-Confirms calls height tx sm sm' h)
      moved
