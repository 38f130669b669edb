-- ===== src/Contract/State.antt =====
-- What can be read off a contract's state (`impl ContractState` and the accessors of `ContractSM` in
-- crates/duty-tracker/src/contract_state_machine.rs).
use strata_bridge.Prelude.{ℕ, Option, none, some, List, [], ◌∷◌, map, ◌==◌, if◌then◌else◌}
use strata_bridge.Prelude.BTreeMap.{BTreeMap, get, values}
use strata_bridge.PogMusig.{PogMusigF}
use strata_bridge.PegOutGraph.{PegOutGraphInput, PegOutGraphSummary}
use strata_bridge.Contract.Types.{
  Graph, ContractState, requested, deposited, assigned, fulfilled, claimed, challenged,
  pre_assert_confirmed, assert_data_confirmed, asserted, disproved, resolved, aborted,
}

unfoldable pub new : (deposit_request_txid abort_deadline : ℕ) → ContractState
new deposit_request_txid abort_deadline = requested (record {
  deposit_request_txid = deposit_request_txid;
  abort_deadline = abort_deadline;
  peg_out_graph_inputs = [];
  peg_out_graph_summaries = [];
  claim_txids = [];
  graph_nonces = [];
  agg_nonces = [];
  graph_partials = [];
  graph_sigs = [];
  root_nonces = [];
  root_partials = [];
})

-- The arms that read a field, which the source writes out in each function.
unfoldable pub claim_txid_map : ContractState → BTreeMap ℕ
claim_txid_map (requested s) = s.claim_txids
claim_txid_map (deposited s) = s.claim_txids
claim_txid_map (assigned s) = s.claim_txids
claim_txid_map (fulfilled s) = s.claim_txids
claim_txid_map (claimed s) = s.claim_txids
claim_txid_map (challenged s) = s.claim_txids
claim_txid_map (pre_assert_confirmed s) = s.claim_txids
claim_txid_map (assert_data_confirmed s) = s.claim_txids
claim_txid_map (asserted s) = s.claim_txids
claim_txid_map (resolved s) = []
claim_txid_map disproved = []
claim_txid_map aborted = []

unfoldable pub peg_out_graph_map : ContractState → BTreeMap Graph
peg_out_graph_map (requested s) = []
peg_out_graph_map (deposited s) = s.peg_out_graphs
peg_out_graph_map (assigned s) = s.peg_out_graphs
peg_out_graph_map (fulfilled s) = s.peg_out_graphs
peg_out_graph_map (claimed s) = s.peg_out_graphs
peg_out_graph_map (challenged s) = s.peg_out_graphs
peg_out_graph_map (pre_assert_confirmed s) = s.peg_out_graphs
peg_out_graph_map (assert_data_confirmed s) = s.peg_out_graphs
peg_out_graph_map (asserted s) = s.peg_out_graphs
peg_out_graph_map (resolved s) = []
peg_out_graph_map disproved = []
peg_out_graph_map aborted = []

unfoldable pub graph_sigs : ContractState → BTreeMap (PogMusigF ℕ)
graph_sigs (requested s) = s.graph_sigs
graph_sigs (deposited s) = s.graph_sigs
graph_sigs (assigned s) = s.graph_sigs
graph_sigs (fulfilled s) = s.graph_sigs
graph_sigs (claimed s) = s.graph_sigs
graph_sigs (challenged s) = s.graph_sigs
graph_sigs (pre_assert_confirmed s) = s.graph_sigs
graph_sigs (assert_data_confirmed s) = s.graph_sigs
graph_sigs (asserted s) = s.graph_sigs
graph_sigs (resolved s) = []
graph_sigs disproved = []
graph_sigs aborted = []

abbrev pub get_summaries : BTreeMap Graph → List PegOutGraphSummary
get_summaries g = map (λ (input, summary). summary) (values g)

unfoldable pub summaries : ContractState → List PegOutGraphSummary
unfolding peg_out_graph_map
summaries (requested s) = values s.peg_out_graph_summaries
summaries (deposited s) = get_summaries s.peg_out_graphs
summaries (assigned s) = get_summaries s.peg_out_graphs
summaries (fulfilled s) = get_summaries s.peg_out_graphs
summaries (claimed s) = get_summaries s.peg_out_graphs
summaries (challenged s) = get_summaries s.peg_out_graphs
summaries (pre_assert_confirmed s) = get_summaries s.peg_out_graphs
summaries (assert_data_confirmed s) = get_summaries s.peg_out_graphs
summaries (asserted s) = get_summaries s.peg_out_graphs
summaries disproved = []
summaries (resolved s) = []
summaries aborted = []

unfoldable pub claim_txids : ContractState → List ℕ
unfolding claim_txid_map
claim_txids (resolved s) = s.claim_txid ∷ []
claim_txids (requested s) = values s.claim_txids
claim_txids (deposited s) = values s.claim_txids
claim_txids (assigned s) = values s.claim_txids
claim_txids (fulfilled s) = values s.claim_txids
claim_txids (claimed s) = values s.claim_txids
claim_txids (challenged s) = values s.claim_txids
claim_txids (pre_assert_confirmed s) = values s.claim_txids
claim_txids (assert_data_confirmed s) = values s.claim_txids
claim_txids (asserted s) = values s.claim_txids
claim_txids disproved = []
claim_txids aborted = []

unfoldable pub find_operator : BTreeMap ℕ → ℕ → Option ℕ
find_operator [] claim_txid = none
find_operator ((op_key, claim) ∷ rest) claim_txid =
    if claim == claim_txid then some op_key else find_operator rest claim_txid

unfoldable pub claim_to_operator : ContractState → ℕ → Option ℕ
unfolding claim_txid_map find_operator
claim_to_operator s claim_txid = find_operator (claim_txid_map s) claim_txid

unfoldable pub graph_input : ContractState → ℕ → Option PegOutGraphInput
unfolding claim_to_operator get
graph_input (requested s) claim_txid = elim (claim_to_operator (requested s) claim_txid) [
  | none ↦ none
  | some op_key ↦ get op_key s.peg_out_graph_inputs
]
graph_input (deposited s) claim_txid = elim (get claim_txid s.peg_out_graphs) [
  | none ↦ none
  | some graph ↦ some graph.0
]
graph_input (assigned s) claim_txid = elim (get claim_txid s.peg_out_graphs) [
  | none ↦ none
  | some graph ↦ some graph.0
]
graph_input (fulfilled s) claim_txid = elim (get claim_txid s.peg_out_graphs) [
  | none ↦ none
  | some graph ↦ some graph.0
]
graph_input (claimed s) claim_txid = elim (get claim_txid s.peg_out_graphs) [
  | none ↦ none
  | some graph ↦ some graph.0
]
graph_input (challenged s) claim_txid = elim (get claim_txid s.peg_out_graphs) [
  | none ↦ none
  | some graph ↦ some graph.0
]
graph_input (pre_assert_confirmed s) claim_txid = elim (get claim_txid s.peg_out_graphs) [
  | none ↦ none
  | some graph ↦ some graph.0
]
graph_input (assert_data_confirmed s) claim_txid = elim (get claim_txid s.peg_out_graphs) [
  | none ↦ none
  | some graph ↦ some graph.0
]
graph_input (asserted s) claim_txid = elim (get claim_txid s.peg_out_graphs) [
  | none ↦ none
  | some graph ↦ some graph.0
]
graph_input disproved claim_txid = none
graph_input (resolved s) claim_txid = none
graph_input aborted claim_txid = none

unfoldable pub graph_summary : ContractState → ℕ → Option PegOutGraphSummary
unfolding get
graph_summary (requested s) claim_txid = get claim_txid s.peg_out_graph_summaries
graph_summary (deposited s) claim_txid = elim (get claim_txid s.peg_out_graphs) [
  | none ↦ none
  | some graph ↦ some graph.1
]
graph_summary (assigned s) claim_txid = elim (get claim_txid s.peg_out_graphs) [
  | none ↦ none
  | some graph ↦ some graph.1
]
graph_summary (fulfilled s) claim_txid = elim (get claim_txid s.peg_out_graphs) [
  | none ↦ none
  | some graph ↦ some graph.1
]
graph_summary (claimed s) claim_txid = elim (get claim_txid s.peg_out_graphs) [
  | none ↦ none
  | some graph ↦ some graph.1
]
graph_summary (challenged s) claim_txid = elim (get claim_txid s.peg_out_graphs) [
  | none ↦ none
  | some graph ↦ some graph.1
]
graph_summary (pre_assert_confirmed s) claim_txid = elim (get claim_txid s.peg_out_graphs) [
  | none ↦ none
  | some graph ↦ some graph.1
]
graph_summary (assert_data_confirmed s) claim_txid = elim (get claim_txid s.peg_out_graphs) [
  | none ↦ none
  | some graph ↦ some graph.1
]
graph_summary (asserted s) claim_txid = elim (get claim_txid s.peg_out_graphs) [
  | none ↦ none
  | some graph ↦ some graph.1
]
graph_summary disproved claim_txid = none
graph_summary (resolved s) claim_txid = none
graph_summary aborted claim_txid = none

unfoldable pub withdrawal_request_txid : ContractState → Option ℕ
withdrawal_request_txid (assigned s) = some s.withdrawal_request_txid
withdrawal_request_txid (requested s) = none
withdrawal_request_txid (deposited s) = none
withdrawal_request_txid (fulfilled s) = none
withdrawal_request_txid (claimed s) = none
withdrawal_request_txid (challenged s) = none
withdrawal_request_txid (pre_assert_confirmed s) = none
withdrawal_request_txid (assert_data_confirmed s) = none
withdrawal_request_txid (asserted s) = none
withdrawal_request_txid disproved = none
withdrawal_request_txid (resolved s) = none
withdrawal_request_txid aborted = none

unfoldable pub withdrawal_fulfillment_txid : ContractState → Option ℕ
withdrawal_fulfillment_txid (requested s) = none
withdrawal_fulfillment_txid (deposited s) = none
withdrawal_fulfillment_txid (assigned s) = none
withdrawal_fulfillment_txid disproved = none
withdrawal_fulfillment_txid (resolved s) = none
withdrawal_fulfillment_txid aborted = none
withdrawal_fulfillment_txid (fulfilled s) = some s.withdrawal_fulfillment_txid
withdrawal_fulfillment_txid (claimed s) = some s.withdrawal_fulfillment_txid
withdrawal_fulfillment_txid (challenged s) = some s.withdrawal_fulfillment_txid
withdrawal_fulfillment_txid (pre_assert_confirmed s) = some s.withdrawal_fulfillment_txid
withdrawal_fulfillment_txid (assert_data_confirmed s) = some s.withdrawal_fulfillment_txid
withdrawal_fulfillment_txid (asserted s) = some s.withdrawal_fulfillment_txid
