-- ===== src/Notify.antt =====
-- The ZMQ state machine of crates/btc-notify (src/state_machine.rs, src/event.rs). Its children
-- prove: Blocks what the processing of a block reports, Mempool how the streams for the mempool
-- commute, Disconnect that a disconnect undoes a block, Tracked which entries are kept, Burial when
-- a block is buried.
pub mod Mempool
pub mod Blocks
pub mod Disconnect
pub mod Tracked
pub mod Reachable
pub mod Burial
pub mod Filters
mod Examples
use strata_bridge.Prelude.{
  ℕ, suc, ◌+◌, Bool, true, false, not, Option, none, some, List, [], ◌∷◌, ◌++◌, if◌then◌else◌, ◌==◌,
  ltb, any, filter, length, first?, pop_back, set, get_elem?, Run, done, panicked, ◌>>=◌,
  debug_assert,
}
use strata_bridge.Prelude.BTreeMap.{BTreeMap, get, insert, remove, retain}
use strata_bridge.Bitcoin.{Transaction, Block, Hashing}

pub data TxStatus : Type 0 where
  unknown mempool : TxStatus
  mined buried : ℕ → ℕ → TxStatus

pub record TxEvent : Type 0 where
  pub rawtx : Transaction
  pub status : TxStatus

pub data BlockStatus : Type 0 where
  uncled mined buried : BlockStatus

pub record BlockEvent : Type 0 where
  pub block : Block
  pub status : BlockStatus

-- A message of the `sequence` stream, by the constructors of `bitcoincore_zmq`. The mempool
-- sequence number is never read.
pub data SequenceMessage : Type 0 where
  block_connect block_disconnect : ℕ → SequenceMessage
  mempool_acceptance mempool_removal : ℕ → ℕ → SequenceMessage

-- An `Arc<dyn Fn>`: its address, by which filters are compared, and the function.
pub record TxPredicate : Type 0 where
  pub address : ℕ
  pub holds : Transaction → Bool

pub record TxLifecycle : Type 0 where
  pub raw : Transaction
  pub block : Option (ℕ × ℕ)

abbrev pub Lifecycles : Type 0
Lifecycles = BTreeMap (Option TxLifecycle)

pub record BtcZmqSm : Type 0 where
  pub bury_depth : ℕ
  pub tx_filters : List TxPredicate
  pub tx_lifecycles : Lifecycles
  pub unburied_blocks : List Block

unfoldable pub init : ℕ → List Block → BtcZmqSm
init bury_depth unburied_blocks = record {
  bury_depth = bury_depth;
  tx_filters = [];
  tx_lifecycles = [];
  unburied_blocks = unburied_blocks;
}

unfoldable pub add_filter : BtcZmqSm → TxPredicate → BtcZmqSm
add_filter sm pred = record sm { tx_filters = sm.tx_filters ++ pred ∷ [] }

-- `iter().position(..)` by the addresses.
unfoldable pub position : List TxPredicate → TxPredicate → Option ℕ
position [] pred = none
position (p ∷ ps) pred =
    if p.address == pred.address
    then some 0
    else elim (position ps pred) [ none ↦ none | some i ↦ some (suc i) ]

-- `Vec::swap_remove`: the last element takes the place of the removed one.
unfoldable pub swap_remove : List TxPredicate → ℕ → List TxPredicate
swap_remove ps i = elim (pop_back ps) [
  | none ↦ []
  | some (front, last) ↦ if i == length front then front else set front i last
]

unfoldable pub rm_filter : BtcZmqSm → TxPredicate → BtcZmqSm
unfolding position swap_remove
rm_filter sm pred = elim (position sm.tx_filters pred) [
  | none ↦ sm
  | some i ↦ record sm { tx_filters = swap_remove sm.tx_filters i }
]

abbrev pub matches : BtcZmqSm → Transaction → Bool
matches sm tx = any (λ f. f.holds tx) sm.tx_filters

-- The closure given to `retain`: is the entry bound to another block than the one that is gone?
abbrev pub outlives : ℕ → ℕ → Option TxLifecycle → Bool
outlives blockhash txid none = true
outlives blockhash txid (some lifecycle) = elim lifecycle.block [
  | none ↦ true
  | some (height, blk) ↦ not (blk == blockhash)
]

-- The events that the closure pushes, in the order of the keys.
unfoldable pub dropped_events : ℕ → Lifecycles → List TxEvent
dropped_events blockhash [] = []
dropped_events blockhash ((txid, none) ∷ m) = dropped_events blockhash m
dropped_events blockhash ((txid, some lifecycle) ∷ m) =
    let rest = dropped_events blockhash m in
    if outlives blockhash txid (some lifecycle)
    then rest
    else record { rawtx = lifecycle.raw; status = TxStatus.unknown } ∷ rest

unfoldable pub disconnect :
    BtcZmqSm → ℕ → Option BlockEvent → BtcZmqSm × List TxEvent × Option BlockEvent
unfolding dropped_events
disconnect sm blockhash blk_evt = (
  record sm { tx_lifecycles = retain (outlives blockhash) sm.tx_lifecycles },
  dropped_events blockhash sm.tx_lifecycles,
  blk_evt,
)

module _ (env : Hashing) where
  open env use {compute_txid, block_hash, bip34_block_height}

  abbrev pub height_of : Block → ℕ
  height_of block = elim (bip34_block_height block) [ none ↦ 0 | some h ↦ h ]

  abbrev pub mined_event : Block → Transaction → TxEvent
  mined_event block tx = record {
    rawtx = tx;
    status = TxStatus.mined (block_hash block) (height_of block);
  }

  abbrev pub buried_event : Block → Transaction → TxEvent
  buried_event block tx = record {
    rawtx = tx;
    status = TxStatus.buried (block_hash block) (height_of block);
  }

  -- The loop over the transactions of the block that is now buried.
  unfoldable pub bury_all :
      BtcZmqSm → Block → List Transaction → Lifecycles → Lifecycles × List TxEvent
  bury_all sm block [] lifecycles = (lifecycles, [])
  bury_all sm block (tx ∷ txs) lifecycles =
      let (final, diff) = bury_all sm block txs (remove (compute_txid tx) lifecycles) in
      (final, if matches sm tx then buried_event block tx ∷ diff else diff)

  -- The last part of `process_block`: the oldest block is buried once there are too many.
  unfoldable pub bury_oldest :
      BtcZmqSm → List TxEvent → Run (BtcZmqSm × List TxEvent × Option BlockEvent)
  unfolding bury_all
  bury_oldest sm diff =
      if ltb sm.bury_depth (length sm.unburied_blocks)
      then elim (pop_back sm.unburied_blocks) [
        | none ↦ panicked
        | some (younger, oldest) ↦
            let (final, gone) = bury_all sm oldest oldest.txdata sm.tx_lifecycles in
            done (
              record sm { tx_lifecycles = final; unburied_blocks = younger },
              diff ++ gone,
              some (record { block = oldest; status = BlockStatus.buried }),
            )
      ]
      else done (sm, diff, none)

  unfoldable pub process_tx : BtcZmqSm → Transaction → BtcZmqSm × List TxEvent
  process_tx sm tx =
      let txid : ℕ = compute_txid tx in
      let recorded : BtcZmqSm = record sm {
        tx_lifecycles = insert txid (some (record { raw = tx; block = none })) sm.tx_lifecycles;
      } in
      if not (matches sm tx) then (sm, []) else elim (get txid sm.tx_lifecycles) [
        | none ↦ (recorded, [])
        | some none ↦ (recorded, record { rawtx = tx; status = TxStatus.mempool } ∷ [])
        | some (some _) ↦ (sm, [])
      ]

  unfoldable pub process_sequence :
      BtcZmqSm → SequenceMessage → Run (BtcZmqSm × List TxEvent × Option BlockEvent)
  unfolding disconnect
  process_sequence sm (block_connect blockhash) = done (sm, [], none)
  process_sequence sm (block_disconnect blockhash) = elim sm.unburied_blocks [
    | [] ↦ done (disconnect sm blockhash none)
    | tip ∷ older ↦
        if block_hash tip == blockhash
        then done (
            disconnect (record sm { unburied_blocks = older }) blockhash
              (some (record { block = tip; status = BlockStatus.uncled })))
        else panicked
  ]
  process_sequence sm (mempool_acceptance txid sequence) = elim (get txid sm.tx_lifecycles) [
    | some (some lifecycle) ↦ elim lifecycle.block [
      | none ↦ done (sm, record { rawtx = lifecycle.raw; status = TxStatus.mempool } ∷ [], none)
      | some _ ↦ done (sm, [], none)
    ]
    | some none ↦ panicked
    | none ↦ done (record sm { tx_lifecycles = insert txid none sm.tx_lifecycles }, [], none)
  ]
  process_sequence sm (mempool_removal txid sequence) =
      let removed : BtcZmqSm = record sm { tx_lifecycles = remove txid sm.tx_lifecycles } in
      elim (get txid sm.tx_lifecycles) [
        | some (some lifecycle) ↦
            done (removed, record { rawtx = lifecycle.raw; status = TxStatus.unknown } ∷ [], none)
        | some none ↦ done (removed, [], none)
        | none ↦ done (removed, [], none)
      ]

-- `debug` says whether the build has debug assertions.
module _ (env : Hashing) (debug : Bool) where
  open env use {compute_txid, block_hash, tx_eq}

  -- The match on the tip: the block becomes the tip, or is passed over where it does not extend it.
  unfoldable pub enqueue_block : BtcZmqSm → Block → Run BtcZmqSm
  enqueue_block sm block = elim sm.unburied_blocks [
    | [] ↦ done (record sm { unburied_blocks = block ∷ [] })
    | tip ∷ older ↦
        if block.header.prev_blockhash == block_hash tip
        then done (record sm { unburied_blocks = block ∷ tip ∷ older })
        else debug_assert debug false (done sm)
  ]

  -- The body of the loop over the matching transactions of the tip.
  unfoldable pub mine_tx : Block → Transaction → Lifecycles → Run Lifecycles
  mine_tx block tx lifecycles =
      let blockhash : ℕ = block_hash block in
      let fresh : Lifecycles =
        insert (compute_txid tx)
          (some (record { raw = tx; block = some (height_of env block, blockhash) })) lifecycles in
      elim (get (compute_txid tx) lifecycles) [
        | none ↦ done fresh
        | some none ↦ done fresh
        | some (some seen) ↦
            let updated : Run Lifecycles = done (
              insert (compute_txid tx)
                (some (record seen { block = some (height_of env block, blockhash) }))
                lifecycles) in
            elim seen.block [
              | none ↦ updated
              | some (height, prior) ↦
                  debug_assert debug (tx_eq tx seen.raw)
                    (debug_assert debug (not (prior == blockhash)) updated)
            ]
      ]

  unfoldable pub mine_all : Block → List Transaction → Lifecycles → Run (Lifecycles × List TxEvent)
  unfolding mine_tx
  mine_all block [] lifecycles = done (lifecycles, [])
  mine_all block (tx ∷ txs) lifecycles = do
    next ← mine_tx block tx lifecycles
    (final, diff) ← mine_all block txs next
    done (final, mined_event env block tx ∷ diff)

  unfoldable pub process_block :
      BtcZmqSm → Block → Run (BtcZmqSm × List TxEvent × Option BlockEvent)
  unfolding enqueue_block mine_all bury_oldest
  process_block sm block = do
    queued ← enqueue_block sm block
    elim (first? queued.unburied_blocks) [
      | none ↦ panicked
      | some tip ↦
          mine_all tip (filter (matches sm) tip.txdata) queued.tx_lifecycles >>= λ (final, diff).
          bury_oldest env (record queued { tx_lifecycles = final }) diff
    ]
