-- ===== src/Contract/Types.antt =====
-- The data of the contract state machine (crates/duty-tracker/src/contract_state_machine.rs, the
-- parameters of crates/params). Values that the machine only stores, compares and hands on (keys,
-- nonces, signatures, descriptors, commitments) are numbers. A `HashMap` is kept like a `BTreeMap`: its order is never read.
use strata_bridge.Prelude.{ℕ, List}
use strata_bridge.Prelude.BTreeMap.{BTreeMap}
use strata_bridge.Prelude.Array.{Array}
use strata_bridge.Bitcoin.{Transaction}
use strata_bridge.Operators.{OperatorTable}
use strata_bridge.PogMusig.{PogMusigF}
use strata_bridge.PegOutGraph.{PegOutGraphInput, PegOutGraphSummary, PegOutGraph}

abbrev pub Graph : Type 0
Graph = PegOutGraphInput × PegOutGraphSummary

pub record ConnectorParams : Type 0 where
  pub payout_optimistic_timelock : ℕ
  pub pre_assert_timelock : ℕ
  pub payout_timelock : ℕ

pub record PegOutGraphParams : Type 0 where
  pub tag : List ℕ
  pub deposit_amount : ℕ
  pub operator_fee : ℕ
  pub challenge_cost : ℕ
  pub refund_delay : ℕ

-- The deposit transaction with its one input (crates/tx-graph/src/transactions/deposit.rs).
pub record DepositTx : Type 0 where
  pub unsigned_tx : Transaction
  pub sighashes : Array ℕ 1
  pub witnesses : Array ℕ 1

pub record ContractCfg : Type 0 where
  pub network : ℕ
  pub operator_table : OperatorTable
  pub connector_params : ConnectorParams
  pub peg_out_graph_params : PegOutGraphParams
  pub sidesystem_params : ℕ
  pub stake_chain_params : ℕ
  pub deposit_idx : ℕ
  pub deposit_tx : DepositTx

pub data ResolutionPath : Type 0 where
  optimistic contested : ResolutionPath

pub record Requested : Type 0 where
  pub deposit_request_txid : ℕ
  pub abort_deadline : ℕ
  pub peg_out_graph_inputs : BTreeMap PegOutGraphInput
  pub peg_out_graph_summaries : BTreeMap PegOutGraphSummary
  pub claim_txids : BTreeMap ℕ
  pub graph_nonces : BTreeMap (BTreeMap (PogMusigF ℕ))
  pub agg_nonces : BTreeMap (PogMusigF ℕ)
  pub graph_partials : BTreeMap (BTreeMap (PogMusigF ℕ))
  pub graph_sigs : BTreeMap (PogMusigF ℕ)
  pub root_nonces : BTreeMap ℕ
  pub root_partials : BTreeMap ℕ

pub record Deposited : Type 0 where
  pub peg_out_graphs : BTreeMap Graph
  pub claim_txids : BTreeMap ℕ
  pub graph_sigs : BTreeMap (PogMusigF ℕ)

pub record Assigned : Type 0 where
  pub peg_out_graphs : BTreeMap Graph
  pub claim_txids : BTreeMap ℕ
  pub graph_sigs : BTreeMap (PogMusigF ℕ)
  pub fulfiller : ℕ
  pub recipient : ℕ
  pub deadline : ℕ
  pub active_graph : Graph
  pub withdrawal_request_txid : ℕ
  pub l1_start_height : ℕ

pub record Fulfilled : Type 0 where
  pub peg_out_graphs : BTreeMap Graph
  pub claim_txids : BTreeMap ℕ
  pub graph_sigs : BTreeMap (PogMusigF ℕ)
  pub fulfiller : ℕ
  pub active_graph : Graph
  pub withdrawal_request_txid : ℕ
  pub withdrawal_fulfillment_txid : ℕ
  pub withdrawal_fulfillment_height : ℕ
  pub l1_start_height : ℕ

pub record Claimed : Type 0 where
  pub peg_out_graphs : BTreeMap Graph
  pub claim_txids : BTreeMap ℕ
  pub graph_sigs : BTreeMap (PogMusigF ℕ)
  pub claim_height : ℕ
  pub fulfiller : ℕ
  pub active_graph : Graph
  pub withdrawal_request_txid : ℕ
  pub withdrawal_fulfillment_txid : ℕ
  pub withdrawal_fulfillment_commitment : ℕ
  pub l1_start_height : ℕ

pub record Challenged : Type 0 where
  pub peg_out_graphs : BTreeMap Graph
  pub claim_txids : BTreeMap ℕ
  pub graph_sigs : BTreeMap (PogMusigF ℕ)
  pub fulfiller : ℕ
  pub active_graph : Graph
  pub withdrawal_request_txid : ℕ
  pub claim_height : ℕ
  pub withdrawal_fulfillment_txid : ℕ
  pub withdrawal_fulfillment_commitment : ℕ
  pub l1_start_height : ℕ

pub record PreAssertConfirmed : Type 0 where
  pub peg_out_graphs : BTreeMap Graph
  pub claim_txids : BTreeMap ℕ
  pub graph_sigs : BTreeMap (PogMusigF ℕ)
  pub fulfiller : ℕ
  pub active_graph : Graph
  pub withdrawal_request_txid : ℕ
  pub claim_height : ℕ
  pub withdrawal_fulfillment_txid : ℕ
  pub withdrawal_fulfillment_commitment : ℕ
  pub l1_start_height : ℕ
  pub signed_assert_data_txs : BTreeMap Transaction

pub record AssertDataConfirmed : Type 0 where
  pub peg_out_graphs : BTreeMap Graph
  pub claim_txids : BTreeMap ℕ
  pub graph_sigs : BTreeMap (PogMusigF ℕ)
  pub fulfiller : ℕ
  pub active_graph : Graph
  pub withdrawal_request_txid : ℕ
  pub withdrawal_fulfillment_txid : ℕ
  pub withdrawal_fulfillment_commitment : ℕ
  pub signed_assert_data_txs : BTreeMap Transaction

pub record Asserted : Type 0 where
  pub peg_out_graphs : BTreeMap Graph
  pub claim_txids : BTreeMap ℕ
  pub graph_sigs : BTreeMap (PogMusigF ℕ)
  pub fulfiller : ℕ
  pub active_graph : Graph
  pub withdrawal_request_txid : ℕ
  pub post_assert_height : ℕ
  pub withdrawal_fulfillment_txid : ℕ
  pub withdrawal_fulfillment_commitment : ℕ
  pub proof_commitment : ℕ

pub record Resolved : Type 0 where
  pub claim_txid : ℕ
  pub withdrawal_request_txid : ℕ
  pub withdrawal_fulfillment_txid : ℕ
  pub payout_txid : ℕ
  pub path : ResolutionPath

pub data ContractState : Type 0 where
  requested : Requested → ContractState
  deposited : Deposited → ContractState
  assigned : Assigned → ContractState
  fulfilled : Fulfilled → ContractState
  claimed : Claimed → ContractState
  challenged : Challenged → ContractState
  pre_assert_confirmed : PreAssertConfirmed → ContractState
  assert_data_confirmed : AssertDataConfirmed → ContractState
  asserted : Asserted → ContractState
  disproved : ContractState
  resolved : Resolved → ContractState
  aborted : ContractState

pub record MachineState : Type 0 where
  pub block_height : ℕ
  pub state : ContractState

pub record ContractSm : Type 0 where
  pub cfg : ContractCfg
  pub state : MachineState
  pub pog : BTreeMap PegOutGraph
