-- ===== src/Lib.antt =====
-- Verification of the operator node of the bridge: the pure state machines that decide what an
-- operator does, and the data structures they share.
--
-- The program. An operator's node watches bitcoin: `BtcZmqSM` (crates/btc-notify) turns the streams
-- of a bitcoin node into events on transactions and blocks. The events reach one `ContractSM`
-- (crates/duty-tracker) for each deposit, which keeps the state of the contract, from the deposit
-- request to the payout, and answers with the duties of this operator. The state machine asks the
-- `OperatorTable` (crates/primitives) for the keys of the operators, takes the transactions of a
-- contract as a `PegOutGraph`, and holds what belongs to the inputs of a graph in a `PogMusigF` (both
-- crates/tx-graph). One `StakeChainSM` (crates/duty-tracker) builds the chain of stake transactions of
-- each operator (crates/stake-chain), on which the graphs stand.
--
-- The files.
-- Prelude: tests on numbers, lists, arrays of fixed length, ordered maps (`BTreeMap` is a list of
-- entries whose keys rise; Collect and Cover are about them), results that may panic.
-- Bitcoin: the data of the `bitcoin` crate, and its functions as the parameters `Hashing`.
-- Notify: crates/btc-notify/src/state_machine.rs and event.rs. `BtcZmqSm` is the state; init,
-- add_filter, rm_filter, process_block, process_tx and process_sequence are the operations, the
-- parts of process_block (enqueue_block, mine_all, bury_oldest) on their own. A call may panic
-- (`Run`); `debug` says whether debug assertions are checked. Txids, block hashes and keys are
-- numbers in the order of their bytes; a filter is its address and its function.
-- PogMusig: crates/tx-graph/src/pog_musig_functor.rs, with arrays of the lengths of the source.
-- Operators: crates/primitives/src/operator_table.rs.
-- PegOutGraph: the data of crates/tx-graph/src/peg_out_graph.rs, its summary, and what of it is signed.
-- TxGraph: the files of crates/tx-graph/src/transactions that construct the transactions of a graph:
-- claim.rs, pre_assert.rs, assert_data.rs, post_assert.rs and assert_chain.rs; in its child Payouts
-- challenge.rs, payout_optimistic.rs, payout.rs, disprove.rs and slash_stake.rs; in its child Graph
-- `PegOutGraph::generate`, which builds them on one another; in its child Witnesses the reading of the
-- witnesses of the assert-data transactions. A function is named after the type whose `new` it is
-- (`claim_tx`, `assert_chain`); the scripts of the connectors are the records `Scripts` and
-- `PayoutScripts`, and a psbt is its unsigned transaction with the `witness_utxo` of each input. A
-- difference of amounts panics below zero, and the sum of a payout overflows at 2^64: it panics where
-- `debug` holds, and wraps otherwise.
-- StakeChain: crates/stake-chain/src/stake_chain.rs and transactions/stake.rs. The scripts that the
-- connectors give are the record `Connectors`. Its child Machine is
-- crates/duty-tracker/src/stake_chain_state_machine.rs: `StakeChainSm` is the state; new, restore,
-- process_exchange and process_setup are the operations. Messages in any order are run by `run`.
-- Contract: crates/duty-tracker/src/contract_state_machine.rs and predicates.rs. `ContractState` has a
-- constructor for each variant of the source, each with a record of the variant's fields. A handler
-- keeps its name and returns an `Outcome`: the duty or the error, with the machine that the call
-- leaves, or a panic; a handler that gives several duties returns `Outcomes`. What the machine calls is
-- the record `Calls`: the functions of the bitcoin and MuSig2 libraries; from crates/tx-graph the
-- generation of a graph and the parsing of the witness of a claim; and from crates/primitives the
-- parsing of the scripts of the assert data. Nonces, signatures and values that the machine only stores
-- and hands on are numbers. Blocks and amounts are numbers; the addition of heights wraps at 2^64, and
-- the subtraction of amounts panics below zero.
-- A sequence of events is run by `run`, whichever result each event has.
--
-- No fuel is needed: every loop of the modelled code goes through a list.
--
-- Not modelled: the scripts of the connectors, spending paths and signing, the parsing of a
-- checkpoint, and everything asynchronous: the contract manager, the database, the network services,
-- the programs of bin.
pub mod Prelude
pub mod Bitcoin
pub mod Notify
pub mod PogMusig
pub mod PegOutGraph
pub mod Operators
pub mod StakeChain
pub mod TxGraph
pub mod Contract
