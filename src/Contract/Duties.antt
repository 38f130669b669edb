-- ===== src/Contract/Duties.antt =====
-- What the contract state machine takes and gives: events, duties, errors, and the outcome of a
-- handler (crates/duty-tracker/src/contract_state_machine.rs). A message of an error keeps its kind
-- and the identifier that it prints.
use strata_bridge.Prelude.{ℕ, Bool, Option, none, some, List, [], ◌∷◌, Result}
use strata_bridge.Prelude.Array.{Array}
use strata_bridge.Prelude.BTreeMap.{BTreeMap}
use strata_bridge.Bitcoin.{OutPoint, Transaction}
use strata_bridge.PogMusig.{
  PogMusigF, num_assert_data_tx, num_payout_optimistic_inputs, num_payout_inputs,
}
use strata_bridge.TxGraph.Witnesses.{AssertionParser}
use strata_bridge.PegOutGraph.{PegOutGraphInput, PegOutGraph}
use strata_bridge.StakeChain.{StakeChainInputs}
use strata_bridge.Contract.Types.{ContractCfg, ContractSm, DepositTx}

-- What the accessors of the sidesystem's deposit entry return.
pub record DispatchedState : Type 0 where
  pub assignee : ℕ
  pub withdraw_outputs : List ℕ
  pub exec_deadline : ℕ

pub data DepositState : Type 0 where
  dispatched : DispatchedState → DepositState
  not_dispatched : DepositState

pub record DepositEntry : Type 0 where
  pub idx : ℕ
  pub deposit_state : DepositState
  pub withdrawal_request_txid : Option ℕ

pub data ContractEvent : Type 0 where
  deposit_setup :
      (operator_p2p_key operator_btc_key stake_hash stake_txid wots_keys : ℕ) → ContractEvent
  graph_nonces graph_sigs : (signer claim_txid : ℕ) → List ℕ → ContractEvent
  aggregated_sigs : BTreeMap (PogMusigF ℕ) → ContractEvent
  root_nonce root_sig : (signer value : ℕ) → ContractEvent
  assignment : (deposit_entry : DepositEntry) (stake_tx l1_start_height : ℕ) → ContractEvent
  deposit_confirmation : Transaction → ContractEvent
  peg_out_graph_confirmation : Transaction → ℕ → ContractEvent
  block : ℕ → ContractEvent
  claim_failure assertion_failure : ContractEvent

pub record WithdrawalMetadata : Type 0 where
  pub tag : List ℕ
  pub operator_idx : ℕ
  pub deposit_idx : ℕ
  pub deposit_txid : ℕ

pub data FulfillerDuty : Type 0 where
  init_stake_chain : FulfillerDuty
  handle_fulfillment :
      (stake_tx : ℕ) (withdrawal_metadata : WithdrawalMetadata) (user_descriptor deadline : ℕ)
      → FulfillerDuty
  publish_claim : (withdrawal_fulfillment_txid stake_txid deposit_txid : ℕ) → FulfillerDuty
  publish_payout_optimistic :
      (deposit_txid claim_txid stake_txid stake_index : ℕ)
      → (agg_sigs : Array ℕ num_payout_optimistic_inputs) → FulfillerDuty
  publish_pre_assert : (deposit_idx deposit_txid claim_txid agg_sig : ℕ) → FulfillerDuty
  publish_assert_data :
      (withdrawal_fulfillment_txid start_height deposit_idx deposit_txid pre_assert_txid : ℕ)
      → (pre_assert_locking_scripts : Array (List ℕ) num_assert_data_tx) → FulfillerDuty
  publish_post_assert_data :
      (deposit_txid : ℕ) (assert_data_txids agg_sigs : Array ℕ num_assert_data_tx) → FulfillerDuty
  publish_payout :
      (deposit_idx deposit_txid post_assert_txid claim_txid stake_txid : ℕ)
      → (agg_sigs : Array ℕ num_payout_inputs) → FulfillerDuty

pub data VerifierDuty : Type 0 where
  verify_claim verify_assertion verify_stake publish_challenge publish_disprove : VerifierDuty

pub data OperatorDuty : Type 0 where
  abort : OperatorDuty
  publish_stake_chain_exchange : OperatorDuty
  publish_deposit_setup :
      (deposit_txid deposit_idx : ℕ) (stake_chain_inputs : StakeChainInputs) → OperatorDuty
  publish_graph_nonces :
      (claim_txid : ℕ) (pog_prevouts : PogMusigF OutPoint) (pog_witnesses : PogMusigF ℕ)
      → (nonces : Option (PogMusigF ℕ)) → OperatorDuty
  publish_graph_signatures :
      (claim_txid : ℕ) (aggnonces : PogMusigF ℕ) (pog_prevouts : PogMusigF OutPoint)
      → (pog_sighashes witnesses : PogMusigF ℕ) (partial_signatures : Option (PogMusigF ℕ))
      → OperatorDuty
  publish_root_nonce : (deposit_request_txid witness : ℕ) (nonce : Option ℕ) → OperatorDuty
  publish_root_signature :
      (deposit_request_txid aggnonce sighash witness : ℕ) (partial_signature : Option ℕ)
      → OperatorDuty
  publish_deposit : (deposit_tx : DepositTx) (partial_sigs : List ℕ) (aggnonce : ℕ) → OperatorDuty
  fulfiller_duty : FulfillerDuty → OperatorDuty
  verifier_duty : VerifierDuty → OperatorDuty

pub data TransitionErr : Type 0 where
  wrong_csm unexpected_block unexpected_assignment : (wanted got : ℕ) → TransitionErr
  unexpected_state : TransitionErr
  no_operator_key no_claim_txid no_graph no_graph_sigs no_assert_data_tx : ℕ → TransitionErr
  no_recipient no_withdrawal_request_txid not_dispatched_entry : TransitionErr
  invalid_tx : ℕ → TransitionErr
  bad_witness unpack_failed verification_failed : TransitionErr
  no_session no_graph_input no_agg_nonces no_btc_key no_root_nonce : ℕ → TransitionErr

-- The `Result` of a handler with the machine that the call leaves, or a panic.
pub data Reply (D : Type 0) : Type 0 where
  accepted : D → ContractSm → Reply D
  rejected : TransitionErr → ContractSm → Reply D
  panicked : Reply D

-- A handler gives at most one duty, or a list of them.
abbrev pub Outcome : Type 0
Outcome = Reply (Option OperatorDuty)

abbrev pub Outcomes : Type 0
Outcomes = Reply (List OperatorDuty)

-- `.map(|x| x.into_iter().collect())`.
abbrev pub to_duties : Outcome → Outcomes
to_duties (accepted none sm) = accepted [] sm
to_duties (accepted (some duty) sm) = accepted (duty ∷ []) sm
to_duties (rejected e sm) = rejected e sm
to_duties panicked = panicked

-- `Result::or_else`, the machine passed on.
abbrev pub or_else : Outcome → (ContractSm → Outcome) → Outcome
or_else (accepted duty sm) f = accepted duty sm
or_else (rejected e sm) f = f sm
or_else panicked f = panicked

pub data Instruction : Type 0 where
  op : ℕ → Instruction
  push_bytes : List ℕ → Instruction

-- What the machine calls: the crates `bitcoin`, `bitcoin_bosd` and `musig2`, the functions of
-- crates/tx-graph that build a graph and read the commitment of a claim, and those of
-- crates/primitives that read the assertion off the scripts of its witnesses
-- (src/scripts/parse_witness.rs) and aggregate keys (src/key_agg.rs).
-- `multi_thread_graph_gen` is the variable of the environment, and `debug` whether debug assertions
-- and overflow are checked.
pub record Calls : Type 0 where
  pub compute_txid : Transaction → ℕ
  pub instructions : List ℕ → List (Option Instruction)
  pub recipient_script : (network descriptor : ℕ) → Option (List ℕ)
  pub serialize_txid : ℕ → List ℕ
  pub generate : ContractCfg → PegOutGraphInput → PegOutGraph
  pub parse_claim_witness : Transaction → Option ℕ
  pub parse_assertion_witnesses : AssertionParser
  pub sum_nonces : List ℕ → ℕ
  pub create_agg_ctx : (btc_keys : List ℕ) (witness : ℕ) → Option ℕ
  pub verify_partial : (key_agg_ctx partial_sig aggnonce btc_key pub_nonce message : ℕ) → Bool
  pub aggregate_partial_signatures :
      (key_agg_ctx aggnonce : ℕ) (partial_sigs : List ℕ) (message : ℕ) → Result ℕ ℕ
  pub taproot_signature : (signature sighash_type : ℕ) → ℕ
  pub multi_thread_graph_gen : Bool
  pub debug : Bool
