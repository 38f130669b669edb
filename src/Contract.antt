-- ===== src/Contract.antt =====
-- The contract state machine of a deposit (crates/duty-tracker/src/contract_state_machine.rs and
-- predicates.rs). Types has its data, Duties what it takes and gives, Predicates the tests on
-- transactions, State and Phase what can be read off a state. The handlers are in Setup, Nonces,
-- Partials and Root (the messages of the setup), Chain and Assertion (the confirmations of the
-- peg-out graph's transactions), Watch (the filter), Height (new blocks), Assignment, and Machine (the
-- deposit and the dispatch). Keeps, Gathering, Claims, Ready, KeyOrder and Signed are about the setup;
-- Confirms, Progress, Invariant, Payout, Timelock, AssertData, Deposit, Verification and Filter about
-- what follows.
pub mod Types
pub mod Duties
pub mod Phase
pub mod Predicates
pub mod Request
pub mod State
pub mod Chain
pub mod Assertion
pub mod Watch
pub mod Height
pub mod Assignment
pub mod Setup
pub mod Nonces
pub mod Partials
pub mod Root
pub mod Machine
pub mod Confirms
pub mod Keeps
pub mod Gathering
pub mod Verification
pub mod Deposit
pub mod Claims
pub mod Ready
pub mod KeyOrder
pub mod Signed
mod Fixtures
mod Examples
mod SetupExamples
pub mod Progress
pub mod Filter
pub mod AssertData
pub mod Invariant
pub mod Payout
pub mod Timelock
