-- ===== src/Notify/Mempool.antt =====
-- The `rawtx` and `sequence` streams of one transaction (process_tx, process_sequence of
-- crates/btc-notify/src/state_machine.rs).
use strata_bridge.Prelude.{ℕ, true, none, some, [], ◌∷◌, ◌≡◌, done, arith}
use strata_bridge.Prelude.BTreeMap.{get, insert, get-insert_self, insert-insert_self}
use strata_bridge.Bitcoin.{Transaction, Hashing}
use strata_bridge.Notify.{
  BtcZmqSm, TxLifecycle, TxEvent, TxStatus, mempool_acceptance, matches, process_tx,
  process_sequence,
}

-- The entry of a transaction that is in no block.
abbrev pub lone : Transaction → TxLifecycle
lone tx = record { raw = tx; block = none }

-- The state that also holds a transaction which is in no block.
abbrev pub holding : Hashing → BtcZmqSm → Transaction → BtcZmqSm
holding env sm tx = record sm {
  tx_lifecycles = insert (env.compute_txid tx) (some (lone tx)) sm.tx_lifecycles;
}

-- The state that also holds the placeholder of a transaction.
abbrev pub awaiting : Hashing → BtcZmqSm → Transaction → BtcZmqSm
awaiting env sm tx = record sm {
  tx_lifecycles = insert (env.compute_txid tx) none sm.tx_lifecycles;
}

abbrev pub event_of : Transaction → TxStatus → TxEvent
event_of tx status = record { rawtx = tx; status = status }

module _ (env : Hashing) (sm : BtcZmqSm) (tx : Transaction) where
  open env use {compute_txid}

  -- A filtered transaction that is not tracked comes in on both streams. Whichever message is first
  -- reports nothing, the second reports the transaction in the mempool, and both orders end in the
  -- same state.
  pub process_tx-process_sequence :
      (sequence : ℕ)
      → matches sm tx ≡ true
      → get (compute_txid tx) sm.tx_lifecycles ≡ none
      → let acceptance = mempool_acceptance (compute_txid tx) sequence in
        let both : BtcZmqSm = holding env sm tx in
        (process_tx env sm tx ≡ (both, []))
        × (process_sequence env both acceptance
            ≡ done (both, event_of tx TxStatus.mempool ∷ [], none))
        × (process_sequence env sm acceptance ≡ done (awaiting env sm tx, [], none))
        × (process_tx env (awaiting env sm tx) tx ≡ (both, event_of tx TxStatus.mempool ∷ []))
  unfolding process_tx process_sequence
  process_tx-process_sequence sequence matched new = ground (
    arith,
    get-insert_self (compute_txid tx) (some (lone tx)) sm.tx_lifecycles,
    get-insert_self (compute_txid tx) none sm.tx_lifecycles,
    insert-insert_self (compute_txid tx) none (some (lone tx)) sm.tx_lifecycles,
  )

  -- The data of a transaction that comes in again changes nothing and reports nothing.
  pub process_tx_twice :
      let first : BtcZmqSm = (process_tx env sm tx).0 in process_tx env first tx ≡ (first, [])
  unfolding process_tx
  process_tx_twice =
      ground (arith, get-insert_self (compute_txid tx) (some (lone tx)) sm.tx_lifecycles)
