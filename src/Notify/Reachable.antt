-- ===== src/Notify/Reachable.antt =====
-- The states that a run of messages reaches from an empty machine (process_block, process_tx and
-- process_sequence of crates/btc-notify/src/state_machine.rs).
use strata_bridge.Prelude.{
  ℕ, Bool, Option, none, some, List, [], ◌∷◌, ◌≡◌, refl, done, arith, Option-cases, inl, inr,
}
use strata_bridge.Prelude.BTreeMap.{
  get, insert, remove, retain, get-insert, get-remove, get-retain, insert-IsSorted, remove-Above,
  retain-Above,
}
use strata_bridge.Bitcoin.{Transaction, Block, Hashing}
use strata_bridge.Notify.{
  BtcZmqSm, TxEvent, BlockEvent, SequenceMessage, block_connect, block_disconnect,
  mempool_acceptance, mempool_removal, TxPredicate, init, add_filter, rm_filter, outlives,
  process_block, process_sequence, process_tx,
}
use strata_bridge.Notify.Tracked.{IsTracked, process_block-IsTracked}

module _ (env : Hashing) (debug : Bool) where
  open env use {compute_txid, block_hash}

  -- One message, or a change of the filters, that does not end in a panic.
  pub data Step (sm : BtcZmqSm) : BtcZmqSm → Type 0 where
    rawblock :
        (block : Block) {sm' : BtcZmqSm} (diff : List TxEvent) (event : Option BlockEvent)
        → process_block env debug sm block ≡ done (sm', diff, event)
        → Step sm sm'
    rawtx : (tx : Transaction) → Step sm (process_tx env sm tx).0
    sequence :
        (message : SequenceMessage) {sm' : BtcZmqSm} (diff : List TxEvent)
        (event : Option BlockEvent)
        → process_sequence env sm message ≡ done (sm', diff, event)
        → Step sm sm'
    subscribe : (pred : TxPredicate) → Step sm (add_filter sm pred)
    unsubscribe : (pred : TxPredicate) → Step sm (rm_filter sm pred)

  pub data Reach (sm : BtcZmqSm) : BtcZmqSm → Type 0 where
    here : Reach sm sm
    next : {s t : BtcZmqSm} → Reach sm s → Step s t → Reach sm t

  process_tx-IsTracked :
      (sm : BtcZmqSm) (tx : Transaction) → IsTracked env sm → IsTracked env (process_tx env sm tx).0
  unfolding process_tx
  process_tx-IsTracked sm tx inv = record {
    sorted = ground (
      arith,
      inv.sorted,
      insert-IsSorted (compute_txid tx) (some (record { raw = tx; block = none })) sm.tx_lifecycles
          inv.sorted,
    );
    bound = λ txid lifecycle height blockhash found at. ground (
      arith,
      inv.bound txid lifecycle height blockhash,
      get-insert (compute_txid tx) txid (some (record { raw = tx; block = none })) sm.tx_lifecycles,
    );
  }

  removed-IsTracked :
      (sm : BtcZmqSm) (txid : ℕ)
      → IsTracked env sm
      → IsTracked env (record sm { tx_lifecycles = remove txid sm.tx_lifecycles })
  removed-IsTracked sm txid inv = record {
    sorted = remove-Above txid 0 sm.tx_lifecycles inv.sorted;
    bound = λ txid' lifecycle height blockhash found at.
        ground (
          arith,
          inv.bound txid' lifecycle height blockhash,
          get-remove txid txid' sm.tx_lifecycles,
        );
  }

  placeholder-IsTracked :
      (sm : BtcZmqSm) (txid : ℕ)
      → IsTracked env sm
      → IsTracked env (record sm { tx_lifecycles = insert txid none sm.tx_lifecycles })
  placeholder-IsTracked sm txid inv = record {
    sorted = insert-IsSorted txid none sm.tx_lifecycles inv.sorted;
    bound = λ txid' lifecycle height blockhash found at. ground (
      arith,
      inv.bound txid' lifecycle height blockhash,
      get-insert txid txid' none sm.tx_lifecycles,
    );
  }

  -- Once the tip is gone, what outlives it is bound to an older block.
  disconnected-IsTracked :
      (sm : BtcZmqSm) (tip : Block) (older : List Block)
      → sm.unburied_blocks ≡ tip ∷ older
      → IsTracked env sm
      → IsTracked env (record sm {
        unburied_blocks = older;
        tx_lifecycles = retain (outlives (block_hash tip)) sm.tx_lifecycles;
      })
  disconnected-IsTracked sm tip older queue inv = record {
    sorted = retain-Above (outlives (block_hash tip)) 0 sm.tx_lifecycles inv.sorted;
    bound = λ txid lifecycle height blockhash found at. ground (
      arith,
      inv.bound txid lifecycle height blockhash,
      get-retain (outlives (block_hash tip)) txid 0 (some lifecycle) sm.tx_lifecycles inv.sorted,
    );
  }

  emptied-IsTracked :
      (sm : BtcZmqSm) (blockhash : ℕ)
      → IsTracked env sm
      → IsTracked env (record sm { tx_lifecycles = retain (outlives blockhash) sm.tx_lifecycles })
  emptied-IsTracked sm blockhash' inv = record {
    sorted = retain-Above (outlives blockhash') 0 sm.tx_lifecycles inv.sorted;
    bound = λ txid lifecycle height blockhash found at. ground (
      arith,
      inv.bound txid lifecycle height blockhash,
      get-retain (outlives blockhash') txid 0 (some lifecycle) sm.tx_lifecycles inv.sorted,
    );
  }

  block_disconnect-IsTracked :
      (sm sm' : BtcZmqSm) (blockhash : ℕ) (diff : List TxEvent) (event : Option BlockEvent)
      → (blocks : List Block) → sm.unburied_blocks ≡ blocks
      → IsTracked env sm
      → process_sequence env sm (block_disconnect blockhash) ≡ done (sm', diff, event)
      → IsTracked env sm'
  unfolding process_sequence
  block_disconnect-IsTracked sm sm' blockhash diff event [] queue inv h =
      let e : sm' ≡ record sm { tx_lifecycles = retain (outlives blockhash) sm.tx_lifecycles } =
        ground arith in
      rw e (emptied-IsTracked sm blockhash inv)
  block_disconnect-IsTracked sm sm' blockhash diff event (tip ∷ older) queue inv h =
      let e : sm' ≡ record sm {
        unburied_blocks = older;
        tx_lifecycles = retain (outlives (block_hash tip)) sm.tx_lifecycles;
      } =
        ground arith in
      rw e (disconnected-IsTracked sm tip older queue inv)

  process_sequence-IsTracked :
      (sm sm' : BtcZmqSm) (message : SequenceMessage)
      → (diff : List TxEvent) (event : Option BlockEvent) → IsTracked env sm
      → process_sequence env sm message ≡ done (sm', diff, event)
      → IsTracked env sm'
  unfolding process_sequence
  process_sequence-IsTracked sm sm' (block_connect blockhash) diff event inv h =
      let e : sm' ≡ sm = ground arith in rw e inv
  process_sequence-IsTracked sm sm' (block_disconnect blockhash) diff event inv h =
      block_disconnect-IsTracked sm sm' blockhash diff event sm.unburied_blocks refl inv h
  process_sequence-IsTracked sm sm' (mempool_acceptance txid s) diff event inv h =
      elim (Option-cases (get txid sm.tx_lifecycles)) [
        | inl new ↦
            let e : sm' ≡ record sm { tx_lifecycles = insert txid none sm.tx_lifecycles } =
              ground arith in
            rw e (placeholder-IsTracked sm txid inv)
        | inr (w, seen) ↦ let e : sm' ≡ sm = ground arith in rw e inv
      ]
  process_sequence-IsTracked sm sm' (mempool_removal txid s) diff event inv h =
      let e : sm' ≡ record sm { tx_lifecycles = remove txid sm.tx_lifecycles } = ground arith in
      rw e (removed-IsTracked sm txid inv)

  same-IsTracked :
      (s t : BtcZmqSm)
      → t.tx_lifecycles ≡ s.tx_lifecycles
      → t.unburied_blocks ≡ s.unburied_blocks
      → IsTracked env s
      → IsTracked env t
  same-IsTracked s t e f inv = record { sorted = rw e inv.sorted; bound = rw (e, f) inv.bound }

  Step-IsTracked : {s t : BtcZmqSm} → Step s t → IsTracked env s → IsTracked env t
  unfolding add_filter rm_filter
  Step-IsTracked {s} (rawblock block {sm' = t} diff event e) inv =
      process_block-IsTracked env debug s block s.unburied_blocks t diff event refl inv e
  Step-IsTracked {s} (rawtx tx) inv = process_tx-IsTracked s tx inv
  Step-IsTracked {s} (sequence message {sm' = t} diff event e) inv =
      process_sequence-IsTracked s t message diff event inv e
  Step-IsTracked {s} (subscribe pred) inv = same-IsTracked s _ refl refl inv
  Step-IsTracked {s} (unsubscribe pred) inv =
      same-IsTracked s (rm_filter s pred) (ground arith) (ground arith) inv

  -- After any messages and any changes of the filters, from a machine that is started with any
  -- blocks: the entries are in the order of their keys, and a transaction that is bound to a block is
  -- one of that block's transactions while the block is unburied. So no entry outlives its block.
  pub Reach-IsTracked :
      (bury_depth : ℕ) (blocks : List Block) {sm : BtcZmqSm}
      → Reach (init bury_depth blocks) sm
      → IsTracked env sm
  unfolding init get
  Reach-IsTracked bury_depth blocks here = record {
    sorted = tt;
    bound = λ txid lifecycle height blockhash found at. ground arith;
  }
  Reach-IsTracked bury_depth blocks (next run step) =
      Step-IsTracked step (Reach-IsTracked bury_depth blocks run)
