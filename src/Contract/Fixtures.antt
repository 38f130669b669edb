-- ===== src/Contract/Fixtures.antt =====
-- A contract of two operators, the second of which is this operator and fulfills the withdrawal. The
-- id of a transaction is its lock time.
use strata_bridge.Prelude.{ℕ, zero, suc, ◌+◌, true, false, none, some, List, [], ◌∷◌, ok, length}
use strata_bridge.Prelude.BTreeMap.{BTreeMap}
use strata_bridge.Prelude.Array.{Array, nil, cons, from_const}
use strata_bridge.Bitcoin.{Transaction}
use strata_bridge.PogMusig.{
  PogMusigF, num_assert_data_tx, num_payout_optimistic_inputs, num_payout_inputs,
}
use strata_bridge.PegOutGraph.{GraphTx, PegOutGraph}
use strata_bridge.Contract.Types.{
  Graph, ContractCfg, Requested, Fulfilled, Claimed, PreAssertConfirmed, AssertDataConfirmed,
  Resolved, ContractState, ContractSm, optimistic,
}
use strata_bridge.Contract.Duties.{ContractEvent, Calls, peg_out_graph_confirmation}

abbrev pub tx_of : ℕ → Transaction
tx_of n = record { version = 2; lock_time = n; input = []; output = [] }

abbrev pub graph_tx : (n : ℕ) → ℕ → GraphTx n
graph_tx n txid = record {
  unsigned_tx = tx_of txid;
  sighash_types = from_const n 1;
  sighashes = from_const n 2;
  witnesses = from_const n 3;
}

-- The graph of a stake: the claim, which spends it, and the other transactions have ids that follow
-- its id.
abbrev pub graph_of_stake : ℕ → PegOutGraph
graph_of_stake stake_txid = record {
  claim_tx = record {
    version = 3;
    lock_time = stake_txid + 1;
    input =
        record {
          previous_output = record { txid = stake_txid; vout = 0 };
          script_sig = [];
          sequence = 0;
          witness = [];
        }
        ∷ [];
    output = [];
  };
  challenge_tx = graph_tx 1 (stake_txid + 2);
  payout_optimistic = graph_tx num_payout_optimistic_inputs (stake_txid + 3);
  assert_chain = record {
    pre_assert = graph_tx 1 (stake_txid + 4);
    assert_data = from_const num_assert_data_tx (tx_of (stake_txid + 5));
    post_assert = graph_tx num_assert_data_tx (stake_txid + 6);
  };
  payout_tx = graph_tx num_payout_inputs (stake_txid + 7);
  disprove_tx = graph_tx 1 (stake_txid + 8);
  slash_stake_txs = [];
}

abbrev pub calls : Calls
calls = record {
  compute_txid = λ tx. tx.lock_time;
  instructions = λ script. [];
  recipient_script = λ network descriptor. none;
  serialize_txid = λ txid. txid ∷ [];
  generate = λ cfg input. graph_of_stake input.stake_outpoint.txid;
  parse_claim_witness = λ tx. some 9;
  parse_assertion_witnesses = λ a b c d. some 9;
  sum_nonces = λ nonces. length nonces;
  create_agg_ctx = λ keys witness. some witness;
  verify_partial = λ ctx partial_sig aggnonce key nonce message. true;
  aggregate_partial_signatures = λ ctx aggnonce partial_sigs message. ok aggnonce;
  taproot_signature = λ signature sighash_type. signature;
  multi_thread_graph_gen = false;
  debug = true;
}

abbrev pub cfg : ContractCfg
cfg = record {
  network = 0;
  operator_table = record {
    pov = 1;
    idx_key = (0, (10, 20)) ∷ (1, (11, 21)) ∷ [];
    p2p_key = (10, (0, 20)) ∷ (11, (1, 21)) ∷ [];
    btc_key = (20, (0, 10)) ∷ (21, (1, 11)) ∷ [];
  };
  connector_params = record {
    payout_optimistic_timelock = 10;
    pre_assert_timelock = 20;
    payout_timelock = 30;
  };
  peg_out_graph_params = record {
    tag = [];
    deposit_amount = 100;
    operator_fee = 1;
    challenge_cost = 1;
    refund_delay = 1;
  };
  sidesystem_params = 0;
  stake_chain_params = 0;
  deposit_idx = 0;
  deposit_tx = record {
    unsigned_tx = record (tx_of 50) {
      input =
          record {
            previous_output = record { txid = 40; vout = 0 };
            script_sig = [];
            sequence = 0;
            witness = [];
          }
          ∷ [];
    };
    sighashes = cons 1 nil;
    witnesses = cons 2 nil;
  };
}

abbrev pub count_from : (n start : ℕ) → Array ℕ n
count_from zero start = nil
count_from (suc n) start = cons start (count_from n (suc start))

abbrev pub collected_from : (n start : ℕ) → BTreeMap Transaction
collected_from zero start = []
collected_from (suc n) start = (start, tx_of start) ∷ collected_from n (suc start)

abbrev pub confirm_from : (n start : ℕ) → List ContractEvent
confirm_from zero start = []
confirm_from (suc n) start =
    peg_out_graph_confirmation (tx_of start) 60 ∷ confirm_from n (suc start)

abbrev pub graph : Graph
graph = (
  record {
    stake_outpoint = record { txid = 100; vout = 0 };
    withdrawal_fulfillment_outpoint = record { txid = 100; vout = 1 };
    stake_hash = 0;
    wots_public_keys = 0;
    operator_pubkey = 21;
  },
  record {
    stake_txid = 100;
    claim_txid = 101;
    payout_optimistic_txid = 102;
    pre_assert_txid = 103;
    assert_data_txids = count_from num_assert_data_tx 200;
    post_assert_txid = 104;
    payout_txid = 105;
    slash_stake_txids = [];
  },
)

abbrev pub sigs : PogMusigF ℕ
sigs = record {
  challenge = 1;
  pre_assert = 2;
  post_assert = from_const num_assert_data_tx 3;
  payout_optimistic = from_const num_payout_optimistic_inputs 4;
  payout = from_const num_payout_inputs 5;
  disprove = 6;
  slash_stake = [];
}

abbrev pub at_state : ℕ → ContractState → ContractSm
at_state height state = record {
  cfg = cfg;
  state = record { block_height = height; state = state };
  pog = [];
}

abbrev pub fulfilled_state : Fulfilled
fulfilled_state = record {
  peg_out_graphs = (101, graph) ∷ [];
  claim_txids = (11, 101) ∷ [];
  graph_sigs = (101, sigs) ∷ [];
  fulfiller = 1;
  active_graph = graph;
  withdrawal_request_txid = 70;
  withdrawal_fulfillment_txid = 71;
  withdrawal_fulfillment_height = 58;
  l1_start_height = 55;
}

abbrev pub claimed_state : Claimed
claimed_state = record {
  peg_out_graphs = (101, graph) ∷ [];
  claim_txids = (11, 101) ∷ [];
  graph_sigs = (101, sigs) ∷ [];
  claim_height = 60;
  fulfiller = 1;
  active_graph = graph;
  withdrawal_request_txid = 70;
  withdrawal_fulfillment_txid = 71;
  withdrawal_fulfillment_commitment = 9;
  l1_start_height = 55;
}

abbrev pub resolved_state : Resolved
resolved_state = record {
  claim_txid = 101;
  withdrawal_request_txid = 70;
  withdrawal_fulfillment_txid = 71;
  payout_txid = 102;
  path = optimistic;
}

abbrev pub pre_assert_state : PreAssertConfirmed
pre_assert_state = record {
  peg_out_graphs = (101, graph) ∷ [];
  claim_txids = (11, 101) ∷ [];
  graph_sigs = (101, sigs) ∷ [];
  fulfiller = 1;
  active_graph = graph;
  withdrawal_request_txid = 70;
  claim_height = 60;
  withdrawal_fulfillment_txid = 71;
  withdrawal_fulfillment_commitment = 9;
  l1_start_height = 55;
  signed_assert_data_txs = [];
}

abbrev pub assert_data_state : AssertDataConfirmed
assert_data_state = record {
  peg_out_graphs = (101, graph) ∷ [];
  claim_txids = (11, 101) ∷ [];
  graph_sigs = (101, sigs) ∷ [];
  fulfiller = 1;
  active_graph = graph;
  withdrawal_request_txid = 70;
  withdrawal_fulfillment_txid = 71;
  withdrawal_fulfillment_commitment = 9;
  signed_assert_data_txs = collected_from num_assert_data_tx 200;
}

abbrev pub requested_state : Requested
requested_state = record {
  deposit_request_txid = 40;
  abort_deadline = 53;
  peg_out_graph_inputs = [];
  peg_out_graph_summaries = [];
  claim_txids = [];
  graph_nonces = [];
  agg_nonces = [];
  graph_partials = [];
  graph_sigs = [];
  root_nonces = [];
  root_partials = [];
}
