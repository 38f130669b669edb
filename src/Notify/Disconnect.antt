-- ===== src/Notify/Disconnect.antt =====
-- A block that is disconnected leaves no trace (process_block and process_sequence of
-- crates/btc-notify/src/state_machine.rs).
use mathlib.Core.List.{List, [], ◌∷◌}
use strata_bridge.Prelude.{
  ℕ, suc, ◌≤◌, Bool, true, false, Option, some, ◌≡◌, refl, sym, ◌∙◌, filter, length, All, done,
  >>=-eq-done, arith, ==_refl,
}
use strata_bridge.Prelude.BTreeMap.{get, retain, get-insert, retain-insert}
use strata_bridge.Bitcoin.{Transaction, Block, Hashing}
use strata_bridge.Notify.{
  BtcZmqSm, TxEvent, BlockEvent, BlockStatus, TxLifecycle, Lifecycles, block_disconnect, matches,
  outlives, height_of, dropped_events, mine_tx, mine_all, bury_oldest, process_block,
  process_sequence,
}
use strata_bridge.Notify.Blocks.{Extends, mined_in, kept_raw, mine_tx-mined_in, process_block_lem}

-- No entry is bound to the block.
abbrev pub NoneBound : ℕ → Lifecycles → Type 0
NoneBound blockhash = All λ entry. outlives blockhash entry.0 entry.1 ≡ true

retain-NoneBound :
    (blockhash : ℕ) (m : Lifecycles) → NoneBound blockhash m → retain (outlives blockhash) m ≡ m
unfolding retain
retain-NoneBound blockhash [] bound = refl
retain-NoneBound blockhash ((txid, w) ∷ m) bound =
    ground (arith, bound.0, retain-NoneBound blockhash m bound.1)

module _ (env : Hashing) (debug : Bool) (block : Block) where
  open env use {compute_txid, block_hash}

  -- The transaction is not tracked, unless it is bound to the block already.
  abbrev pub NotElsewhere : Lifecycles → Transaction → Type 0
  NotElsewhere m tx =
      (w : Option TxLifecycle)
      → get (compute_txid tx) m ≡ some w
      → outlives (block_hash block) (compute_txid tx) w ≡ false

  NotElsewhere-mined_in :
      (tx : Transaction) (txs : List Transaction) (m : Lifecycles)
      → All (NotElsewhere m) txs
      → All (NotElsewhere (mined_in env block tx m)) txs
  NotElsewhere-mined_in tx [] m new = tt
  NotElsewhere-mined_in tx (t ∷ ts) m new = (
    λ w found. ground (
      arith,
      new.0 w,
      ==_refl (block_hash block),
      get-insert (compute_txid tx) (compute_txid t)
          (some (record {
            raw = kept_raw tx (get (compute_txid tx) m);
            block = some (height_of env block, block_hash block);
          }))
          m,
    ),
    NotElsewhere-mined_in tx ts m new.1,
  )

  retain-mined_in :
      (tx : Transaction) (m : Lifecycles)
      → NotElsewhere m tx
      → retain (outlives (block_hash block)) (mined_in env block tx m)
        ≡ retain (outlives (block_hash block)) m
  retain-mined_in tx m new =
      retain-insert (outlives (block_hash block)) (compute_txid tx) _ m
        (ground (arith, ==_refl (block_hash block))) new

  mine_all-retain :
      (txs : List Transaction) (m final : Lifecycles) (diff : List TxEvent)
      → All (NotElsewhere m) txs
      → mine_all env debug block txs m ≡ done (final, diff)
      → retain (outlives (block_hash block)) final ≡ retain (outlives (block_hash block)) m
  unfolding mine_all
  mine_all-retain [] m final diff new h = ground arith
  mine_all-retain (tx ∷ txs) m final diff new h =
      let (next, e, h') = >>=-eq-done (mine_tx env debug block tx m) _ h in
      let (rest, e', h'') = >>=-eq-done (mine_all env debug block txs next) _ h' in
      let is_next : next ≡ mined_in env block tx m = mine_tx-mined_in env debug block tx m next e in
      ground (
        arith,
        retain-mined_in tx m new.0,
        mine_all-retain txs next rest.0 rest.1 (rw is_next (NotElsewhere-mined_in tx txs m new.1))
            e',
      )

  -- A block extends the chain and buries none, its transactions were not tracked, and no entry was
  -- bound to its hash. When it is
  -- disconnected again, the state is the one before the block, and the block is reported as uncled.
  pub block_disconnect-process_block :
      (sm sm' : BtcZmqSm) (diff : List TxEvent) (event : Option BlockEvent)
      → Extends env sm block
      → suc (length sm.unburied_blocks) ≤ sm.bury_depth
      → All (NotElsewhere sm.tx_lifecycles) (filter (matches sm) block.txdata)
      → NoneBound (block_hash block) sm.tx_lifecycles
      → process_block env debug sm block ≡ done (sm', diff, event)
      → process_sequence env sm' (block_disconnect (block_hash block))
        ≡ done (
          sm,
          dropped_events (block_hash block) sm'.tx_lifecycles,
          some (record { block = block; status = BlockStatus.uncled }),
        )
  unfolding process_sequence bury_oldest
  block_disconnect-process_block sm sm' diff event extends young new bound h =
      let ((final, mined), e, h') =
        >>=-eq-done (mine_all env debug block (filter (matches sm) block.txdata) sm.tx_lifecycles) _
          (sym (process_block_lem env debug sm block extends) ∙ h) in
      ground (
        arith,
        ==_refl (block_hash block),
        mine_all-retain (filter (matches sm) block.txdata) sm.tx_lifecycles final mined new e,
        retain-NoneBound (block_hash block) sm.tx_lifecycles bound,
      )
