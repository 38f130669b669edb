-- ===== src/Notify/Blocks.antt =====
-- What the processing of a block reports, and which block it buries (process_block of
-- crates/btc-notify/src/state_machine.rs).
use strata_bridge.Prelude.{
  ℕ, Bool, true, false, Option, none, some, List, [], ◌∷◌, ◌++◌, ◌≡◌, ◌≢◌, refl, sym, ◌∙◌, inl, inr,
  map, filter, length, pop_back, if◌then◌else◌, ltb, done, panicked, ◌>>=◌, >>=-eq-done,
  done_of_ne-panicked, arith, Bool-cases, Option-cases,
}
use strata_bridge.Prelude.BTreeMap.{get, insert, remove}
use mathlib.Core.List.{append-nil}
use strata_bridge.Bitcoin.{Transaction, Block, Hashing}
use strata_bridge.Notify.{
  BtcZmqSm, TxEvent, BlockEvent, BlockStatus, TxLifecycle, Lifecycles, matches, height_of,
  mined_event, buried_event, enqueue_block, mine_tx, mine_all, bury_all, bury_oldest, process_block,
}

-- The block is the successor of the tip, or there is no tip.
abbrev pub Extends : Hashing → BtcZmqSm → Block → Type 0
Extends env sm block =
    (tip : Block) (older : List Block)
    → sm.unburied_blocks ≡ tip ∷ older
    → block.header.prev_blockhash ≡ env.block_hash tip

-- The oldest of the blocks, if there are more than `depth`.
abbrev pub overdue : ℕ → List Block → Option Block
overdue depth blocks =
    if ltb depth (length blocks)
    then elim (pop_back blocks) [ none ↦ none | some (younger, oldest) ↦ some oldest ]
    else none

-- The blocks that are left once the oldest one is buried, if there are more than `depth`.
abbrev pub still_waiting : ℕ → List Block → List Block
still_waiting depth blocks =
    if ltb depth (length blocks)
    then elim (pop_back blocks) [ none ↦ [] | some (younger, oldest) ↦ younger ]
    else blocks

-- What is reported of the block that has become too old.
abbrev pub burials : Hashing → BtcZmqSm → Option Block → List TxEvent
burials env sm none = []
burials env sm (some oldest) = map (buried_event env oldest) (filter (matches sm) oldest.txdata)

abbrev pub burial_of : Option Block → Option BlockEvent
burial_of none = none
burial_of (some oldest) = some (record { block = oldest; status = BlockStatus.buried })

-- The blocks that wait to be buried once the block is the tip.
abbrev pub queue : BtcZmqSm → Block → List Block
queue sm block = block ∷ sm.unburied_blocks

module _ (env : Hashing) (debug : Bool) where
  pub mine_all-events :
      (block : Block) (txs : List Transaction) (m final : Lifecycles) (diff : List TxEvent)
      → mine_all env debug block txs m ≡ done (final, diff)
      → diff ≡ map (mined_event env block) txs
  unfolding mine_all
  mine_all-events block [] m final diff h = ground arith
  mine_all-events block (tx ∷ txs) m final diff h =
      let (next, e, h') = >>=-eq-done (mine_tx env debug block tx m) _ h in
      let (rest, e', h'') = >>=-eq-done (mine_all env debug block txs next) _ h' in
      ground (arith, mine_all-events block txs next rest.0 rest.1 e')

  pub bury_all-events :
      (sm : BtcZmqSm) (block : Block) (txs : List Transaction) (m : Lifecycles)
      → (bury_all env sm block txs m).1 ≡ map (buried_event env block) (filter (matches sm) txs)
  unfolding bury_all
  bury_all-events sm block [] m = refl
  bury_all-events sm block (tx ∷ txs) m =
      ground (arith, bury_all-events sm block txs (remove (env.compute_txid tx) m))

  bury_oldest-reports :
      (sm sm' : BtcZmqSm) (diff diff' : List TxEvent) (event : Option BlockEvent)
      → bury_oldest env sm diff ≡ done (sm', diff', event)
      → let old : Option Block = overdue sm.bury_depth sm.unburied_blocks in
        (diff' ≡ diff ++ burials env sm old) × (event ≡ burial_of old)
  unfolding bury_oldest
  bury_oldest-reports sm sm' diff diff' event h =
      elim (Bool-cases (ltb sm.bury_depth (length sm.unburied_blocks))) [
        | inr few ↦ ground (arith, append-nil diff)
        | inl many ↦ elim (Option-cases (pop_back sm.unburied_blocks)) [
          | inl e ↦ ground arith
          | inr ((younger, oldest), e) ↦
              ground (arith, bury_all-events sm oldest oldest.txdata sm.tx_lifecycles)
        ]
      ]

  bury_oldest-waiting :
      (sm sm' : BtcZmqSm) (diff diff' : List TxEvent) (event : Option BlockEvent)
      → bury_oldest env sm diff ≡ done (sm', diff', event)
      → (sm'.tx_filters ≡ sm.tx_filters)
        × (sm'.unburied_blocks ≡ still_waiting sm.bury_depth sm.unburied_blocks)
  unfolding bury_oldest
  bury_oldest-waiting sm sm' diff diff' event h =
      elim (Bool-cases (ltb sm.bury_depth (length sm.unburied_blocks))) [
        | inr few ↦ ground arith
        | inl many ↦ elim (Option-cases (pop_back sm.unburied_blocks)) [
          | inl e ↦ ground arith
          | inr ((younger, oldest), e) ↦ ground arith
        ]
      ]

  enqueue_block-Extends :
      (sm : BtcZmqSm) (block : Block)
      → Extends env sm block
      → enqueue_block env debug sm block ≡ done (record sm { unburied_blocks = queue sm block })
  unfolding enqueue_block
  enqueue_block-Extends sm block extends = tip_cases sm.unburied_blocks refl
    where
      tip_cases :
          (blocks : List Block)
          → sm.unburied_blocks ≡ blocks
          → enqueue_block env debug sm block ≡ done (record sm { unburied_blocks = queue sm block })
      tip_cases [] e = ground arith
      tip_cases (tip ∷ older) e = ground (arith, extends tip older e)

  pub process_block_lem :
      (sm : BtcZmqSm) (block : Block)
      → Extends env sm block
      → process_block env debug sm block ≡ (
          mine_all env debug block (filter (matches sm) block.txdata) sm.tx_lifecycles
          >>= λ (final, diff).
              bury_oldest env
                (record sm { tx_lifecycles = final; unburied_blocks = queue sm block })
                diff)
  unfolding process_block
  process_block_lem sm block extends = rw (enqueue_block-Extends sm block extends, process_block)

  -- A block that extends the chain is reported in full: each of its transactions that passes a
  -- filter is reported as mined, in the order of the block, then each such transaction of the block
  -- that is now buried too deep, and the event for the buried block itself; nothing else.
  pub process_block-reports :
      (sm sm' : BtcZmqSm) (block : Block) (diff : List TxEvent) (event : Option BlockEvent)
      → Extends env sm block
      → process_block env debug sm block ≡ done (sm', diff, event)
      → let old : Option Block = overdue sm.bury_depth (queue sm block) in
        (diff
          ≡ map (mined_event env block) (filter (matches sm) block.txdata) ++ burials env sm old)
        × (event ≡ burial_of old)
  unfolding process_block
  process_block-reports sm sm' block diff event extends h =
      let ((final, mined), e, h') =
        >>=-eq-done (mine_all env debug block (filter (matches sm) block.txdata) sm.tx_lifecycles) _
          (sym (process_block_lem sm block extends) ∙ h) in
      let queued : BtcZmqSm = record sm {
        tx_lifecycles = final;
        unburied_blocks = queue sm block;
      } in
      ground (
        arith,
        mine_all-events block (filter (matches sm) block.txdata) sm.tx_lifecycles final mined e,
        bury_oldest-reports queued sm' mined diff event h',
      )

-- The transaction data that an entry keeps when its transaction is mined.
abbrev pub kept_raw : Transaction → Option (Option TxLifecycle) → Transaction
kept_raw tx (some (some seen)) = seen.raw
kept_raw tx _ = tx

-- The lifecycles after a transaction is mined in a block.
abbrev pub mined_in : Hashing → Block → Transaction → Lifecycles → Lifecycles
mined_in env block tx m =
    insert (env.compute_txid tx)
      (some (record {
        raw = kept_raw tx (get (env.compute_txid tx) m);
        block = some (height_of env block, env.block_hash block);
      }))
      m

module _ (env : Hashing) where
  pub mine_tx-mined_in :
      (debug : Bool) (block : Block) (tx : Transaction) (m next : Lifecycles)
      → mine_tx env debug block tx m ≡ done next
      → next ≡ mined_in env block tx m
  unfolding mine_tx
  mine_tx-mined_in false block tx m next h = ground arith
  mine_tx-mined_in true block tx m next h = ground arith

  mine_tx_release :
      (block : Block) (tx : Transaction) (m : Lifecycles)
      → mine_tx env false block tx m ≡ done (mined_in env block tx m)
  unfolding mine_tx
  mine_tx_release block tx m = ground arith

  mine_all_release :
      (block : Block) (txs : List Transaction) (m : Lifecycles)
      → (r : Lifecycles × List TxEvent) × (mine_all env false block txs m ≡ done r)
  unfolding mine_all
  mine_all_release block [] m = ((m, []), refl)
  mine_all_release block (tx ∷ txs) m =
      let (rest, e) = mine_all_release block txs (mined_in env block tx m) in
      ((rest.0, mined_event env block tx ∷ rest.1), ground (arith, mine_tx_release block tx m))

  bury_oldest-ne-panicked :
      (debug : Bool) (sm : BtcZmqSm) (blocks : List Block) (diff : List TxEvent)
      → sm.unburied_blocks ≡ blocks
      → bury_oldest env sm diff ≢ panicked
  unfolding bury_oldest
  bury_oldest-ne-panicked debug sm [] diff e = ground arith
  bury_oldest-ne-panicked debug sm (b ∷ bs) diff e = ground arith

  mine_then_bury-ne-panicked :
      (queued : BtcZmqSm) (tip : Block) (txs : List Transaction)
      → (mine_all env false tip txs queued.tx_lifecycles >>= λ (final, diff).
          bury_oldest env (record queued { tx_lifecycles = final }) diff)
        ≢ panicked
  mine_then_bury-ne-panicked queued tip txs =
      let (r, e) = mine_all_release tip txs queued.tx_lifecycles in
      rw e (
        bury_oldest-ne-panicked false (record queued { tx_lifecycles = r.0 }) queued.unburied_blocks
          r.1 refl)

  process_block-ne-panicked :
      (sm : BtcZmqSm) (block : Block) (blocks : List Block)
      → sm.unburied_blocks ≡ blocks
      → process_block env false sm block ≢ panicked
  unfolding process_block enqueue_block
  process_block-ne-panicked sm block [] e = ground (
    arith,
    mine_then_bury-ne-panicked (record sm { unburied_blocks = block ∷ [] }) block
        (filter (matches sm) block.txdata),
  )
  process_block-ne-panicked sm block (tip ∷ older) e = ground (
    arith,
    mine_then_bury-ne-panicked (record sm { unburied_blocks = block ∷ tip ∷ older }) block
        (filter (matches sm) block.txdata),
    mine_then_bury-ne-panicked sm tip (filter (matches sm) tip.txdata),
  )

  -- In a build without debug assertions no block makes `process_block` panic: neither its `unwrap`
  -- nor its `unreachable` is ever met, whatever the state and the block.
  pub process_block_total :
      (sm : BtcZmqSm) (block : Block)
      → (r : BtcZmqSm × List TxEvent × Option BlockEvent) × (process_block env false sm block
          ≡ done r)
  process_block_total sm block =
      done_of_ne-panicked (process_block env false sm block)
        (process_block-ne-panicked sm block sm.unburied_blocks refl)

  stray_again :
      (sm : BtcZmqSm) (block tip : Block) (older : List Block)
      → sm.unburied_blocks ≡ tip ∷ older
      → block.header.prev_blockhash ≢ env.block_hash tip
      → Extends env (record sm { unburied_blocks = older }) tip
      → process_block env false sm block
        ≡ process_block env false (record sm { unburied_blocks = older }) tip
  unfolding process_block enqueue_block
  stray_again sm block tip older e stray linked =
      let again = process_block_lem env false (record sm { unburied_blocks = older }) tip linked in
      ground arith

  -- In a build without debug assertions, and where the tip is the successor of the block before it,
  -- a block that does not extend the tip leaves no trace: the call does exactly what the tip would
  -- do if it came in again on top of the older blocks. So the transactions of the tip are reported
  -- as mined once more, followed by those of a block that is buried too deep, with its event; the
  -- filters stay; and the blocks that wait are those that waited before, less the buried one.
  pub process_block_stray :
      (sm sm' : BtcZmqSm) (block tip : Block) (older : List Block) (diff : List TxEvent)
      (event : Option BlockEvent)
      → sm.unburied_blocks ≡ tip ∷ older
      → block.header.prev_blockhash ≢ env.block_hash tip
      → Extends env (record sm { unburied_blocks = older }) tip
      → process_block env false sm block ≡ done (sm', diff, event)
      → let old : Option Block = overdue sm.bury_depth sm.unburied_blocks in
        (process_block env false sm block
          ≡ process_block env false (record sm { unburied_blocks = older }) tip)
        × (diff ≡ map (mined_event env tip) (filter (matches sm) tip.txdata) ++ burials env sm old)
        × (event ≡ burial_of old)
        × (sm'.tx_filters ≡ sm.tx_filters)
        × (sm'.unburied_blocks ≡ still_waiting sm.bury_depth sm.unburied_blocks)
  unfolding process_block enqueue_block
  process_block_stray sm sm' block tip older diff event e stray linked h =
      let ((final, mined), found, h') =
        >>=-eq-done (mine_all env false tip (filter (matches sm) tip.txdata) sm.tx_lifecycles)
          (λ (final, diff). bury_oldest env (record sm { tx_lifecycles = final }) diff)
          {b = (sm', diff, event)} (ground arith) in
      let queued : BtcZmqSm = record sm { tx_lifecycles = final } in
      let (reported, buried) = bury_oldest-reports env false queued sm' mined diff event h' in
      let (filters, waiting) = bury_oldest-waiting env false queued sm' mined diff event h' in
      (
        stray_again sm block tip older e stray linked,
        ground (
          arith,
          mine_all-events env false tip (filter (matches sm) tip.txdata) sm.tx_lifecycles final
              mined found,
          reported,
        ),
        buried,
        filters,
        waiting,
      )
