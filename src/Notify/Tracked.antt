-- ===== src/Notify/Tracked.antt =====
-- Which transactions stay tracked, under any run of messages (process_block, process_tx and
-- process_sequence of crates/btc-notify/src/state_machine.rs).
use strata_bridge.Prelude.{
  ℕ, Bool, true, Option, none, some, List, [], ◌∷◌, ◌≡◌, refl, map, filter, length, All, any,
  contains, if◌then◌else◌, ◌==◌, ltb, ◌&&◌, ◌||◌, done, ◌>>=◌, >>=-eq-done, arith, ==_refl,
  Bool-cases, inl, inr, pop_last,
}
use strata_bridge.Prelude.BTreeMap.{
  get, remove, IsSorted, get-insert, get-remove, insert-IsSorted, remove-Above,
}
use strata_bridge.Bitcoin.{Transaction, Block, Hashing}
use strata_bridge.Notify.{
  BtcZmqSm, TxEvent, BlockEvent, TxLifecycle, Lifecycles, matches, height_of, mine_tx, mine_all,
  bury_all, bury_oldest, process_block, enqueue_block,
}
use strata_bridge.Notify.Blocks.{mined_in, kept_raw, mine_tx-mined_in}

module _ (env : Hashing) where
  open env use {compute_txid, block_hash}

  abbrev pub txids : List Transaction → List ℕ
  txids = map compute_txid

  -- Does one of the blocks have this hash, and the transaction among its own?
  abbrev pub is_mined : List Block → ℕ → ℕ → Bool
  is_mined blocks blockhash txid =
      any (λ b. (block_hash b == blockhash) && contains (txids b.txdata) txid) blocks

  -- A tracked transaction that is bound to a block is one of that block's, and the block is one of
  -- the unburied.
  abbrev pub IsBound : List Block → Lifecycles → Type 0
  IsBound blocks m =
      (txid : ℕ) (lifecycle : TxLifecycle) (height blockhash : ℕ)
      → get txid m ≡ some (some lifecycle)
      → lifecycle.block ≡ some (height, blockhash)
      → is_mined blocks blockhash txid ≡ true

  pub record IsTracked (sm : BtcZmqSm) : Type 0 where
    pub sorted : IsSorted sm.tx_lifecycles
    pub bound : IsBound sm.unburied_blocks sm.tx_lifecycles

  any-pop_last :
      (p : Block → Bool) (b : Block) (bs : List Block)
      → any p (b ∷ bs) ≡ (any p (pop_last b bs).0 || p (pop_last b bs).1)
  any-pop_last p b [] = ground arith
  any-pop_last p b (c ∷ cs) = ground (arith, any-pop_last p c cs)

  contains_self :
      (txs all : List Transaction)
      → ((txid : ℕ) → contains (txids txs) txid ≡ true → contains (txids all) txid ≡ true)
      → All (λ tx. contains (txids all) (compute_txid tx) ≡ true) txs
  contains_self [] all sub = tt
  contains_self (tx ∷ txs) all sub = (
    sub (compute_txid tx) (ground (arith, ==_refl (compute_txid tx))),
    contains_self txs all (λ txid h. sub txid (ground arith)),
  )

  All-filter :
      (P : Transaction → Type 0) (p : Transaction → Bool) (txs : List Transaction)
      → All P txs
      → All P (filter p txs)
  All-filter P p [] h = tt
  All-filter P p (tx ∷ txs) h = ground (arith, All-filter P p txs h.1)

  -- The matching transactions of a block are its own.
  filter-contains :
      (p : Transaction → Bool) (block : Block)
      → All (λ tx. contains (txids block.txdata) (compute_txid tx) ≡ true) (filter p block.txdata)
  filter-contains p block =
      All-filter _ p block.txdata (contains_self block.txdata block.txdata (λ txid h. h))

  mined_in-IsBound :
      (blocks : List Block) (tip : Block) (tx : Transaction) (m : Lifecycles)
      → is_mined blocks (block_hash tip) (compute_txid tx) ≡ true
      → IsBound blocks m
      → IsBound blocks (mined_in env tip tx m)
  mined_in-IsBound blocks tip tx m here bound txid lifecycle height blockhash found at = ground (
    arith,
    bound txid lifecycle height blockhash,
    get-insert (compute_txid tx) txid
        (some (record {
          raw = kept_raw tx (get (compute_txid tx) m);
          block = some (height_of env tip, block_hash tip);
        }))
        m,
  )

  mine_all-IsTracked :
      (debug : Bool) (older : List Block) (tip : Block) (txs : List Transaction)
      → (m final : Lifecycles) (diff : List TxEvent)
      → All (λ tx. contains (txids tip.txdata) (compute_txid tx) ≡ true) txs
      → IsSorted m
      → IsBound (tip ∷ older) m
      → mine_all env debug tip txs m ≡ done (final, diff)
      → IsSorted final × IsBound (tip ∷ older) final
  unfolding mine_all
  mine_all-IsTracked debug older tip [] m final diff own sorted bound h =
      let e : m ≡ final = ground arith in rw (← e) (sorted, bound)
  mine_all-IsTracked debug older tip (tx ∷ txs) m final diff own sorted bound h =
      let (next, e, h') = >>=-eq-done (mine_tx env debug tip tx m) _ h in
      let (rest, e', h'') = >>=-eq-done (mine_all env debug tip txs next) _ h' in
      let is_next : next ≡ mined_in env tip tx m = mine_tx-mined_in env debug tip tx m next e in
      let is_final : rest.0 ≡ final = ground arith in
      rw (← is_final) (
        mine_all-IsTracked debug older tip txs next rest.0 rest.1 own.1
          (rw is_next (insert-IsSorted (compute_txid tx) _ m sorted))
          (rw is_next (
            mined_in-IsBound (tip ∷ older) tip tx m
              (ground (arith, own.0, ==_refl (block_hash tip))) bound))
          e')

  get-bury_all :
      (sm : BtcZmqSm) (block : Block) (txs : List Transaction) (m : Lifecycles) (txid : ℕ)
      → get txid (bury_all env sm block txs m).0
        ≡ (if contains (txids txs) txid then none else get txid m)
  unfolding bury_all
  get-bury_all sm block [] m txid = refl
  get-bury_all sm block (tx ∷ txs) m txid = ground (
    arith,
    get-bury_all sm block txs (remove (compute_txid tx) m) txid,
    get-remove (compute_txid tx) txid m,
  )

  bury_all-IsSorted :
      (sm : BtcZmqSm) (block : Block) (txs : List Transaction) (m : Lifecycles)
      → IsSorted m
      → IsSorted (bury_all env sm block txs m).0
  unfolding bury_all
  bury_all-IsSorted sm block [] m s = s
  bury_all-IsSorted sm block (tx ∷ txs) m s =
      bury_all-IsSorted sm block txs (remove (compute_txid tx) m)
        (remove-Above (compute_txid tx) 0 m s)

  -- What is left after the oldest block is buried is bound to the others.
  buried-IsTracked :
      (sm : BtcZmqSm) (tip : Block) (older : List Block)
      → sm.unburied_blocks ≡ tip ∷ older
      → IsTracked sm
      → let (younger, oldest) = pop_last tip older in
        IsTracked (record sm {
          tx_lifecycles = (bury_all env sm oldest oldest.txdata sm.tx_lifecycles).0;
          unburied_blocks = younger;
        })
  buried-IsTracked sm tip older queue inv =
      let oldest = (pop_last tip older).1 in
      record {
        sorted = bury_all-IsSorted sm oldest oldest.txdata sm.tx_lifecycles inv.sorted;
        bound = λ txid lifecycle height blockhash found at. ground (
          arith,
          inv.bound txid lifecycle height blockhash,
          get-bury_all sm oldest oldest.txdata sm.tx_lifecycles txid,
          any-pop_last (λ b. (block_hash b == blockhash) && contains (txids b.txdata) txid) tip
              older,
        );
      }

  bury_oldest-IsTracked :
      (sm : BtcZmqSm) (tip : Block) (older : List Block) (diff : List TxEvent)
      → (sm' : BtcZmqSm) (diff' : List TxEvent) (event : Option BlockEvent)
      → sm.unburied_blocks ≡ tip ∷ older
      → IsTracked sm
      → bury_oldest env sm diff ≡ done (sm', diff', event)
      → IsTracked sm'
  unfolding bury_oldest
  bury_oldest-IsTracked sm tip older diff sm' diff' event queue inv h =
      let (younger, oldest) = pop_last tip older in
      let left : BtcZmqSm = record sm {
        tx_lifecycles = (bury_all env sm oldest oldest.txdata sm.tx_lifecycles).0;
        unburied_blocks = younger;
      } in
      elim (Bool-cases (ltb sm.bury_depth (length sm.unburied_blocks))) [
        | inl many ↦
            let e : sm' ≡ left = ground arith in rw e (buried-IsTracked sm tip older queue inv)
        | inr few ↦ let e : sm' ≡ sm = ground arith in rw e inv
      ]

  mine_then_bury-IsTracked :
      (debug : Bool) (queued : BtcZmqSm) (tip : Block) (older : List Block)
      → (p : Transaction → Bool) (sm' : BtcZmqSm) (diff : List TxEvent) (event : Option BlockEvent)
      → queued.unburied_blocks ≡ tip ∷ older
      → IsTracked queued
      → (mine_all env debug tip (filter p tip.txdata) queued.tx_lifecycles >>= λ (final, diff).
          bury_oldest env (record queued { tx_lifecycles = final }) diff)
        ≡ done (sm', diff, event)
      → IsTracked sm'
  mine_then_bury-IsTracked debug queued tip older p sm' diff event queue inv h =
      let ((final, mined), e, h') =
        >>=-eq-done (mine_all env debug tip (filter p tip.txdata) queued.tx_lifecycles) _ h in
      let (sorted, bound) =
        mine_all-IsTracked debug older tip (filter p tip.txdata) queued.tx_lifecycles final mined
          (filter-contains p tip) inv.sorted (rw queue at inv.bound) e in
      bury_oldest-IsTracked (record queued { tx_lifecycles = final }) tip older mined sm' diff event
        queue (record { sorted = sorted; bound = rw queue bound }) h'

  pub process_block-IsTracked :
      (debug : Bool) (sm : BtcZmqSm) (block : Block) (blocks : List Block)
      → (sm' : BtcZmqSm) (diff : List TxEvent) (event : Option BlockEvent)
      → sm.unburied_blocks ≡ blocks
      → IsTracked sm
      → process_block env debug sm block ≡ done (sm', diff, event)
      → IsTracked sm'
  unfolding process_block enqueue_block
  process_block-IsTracked debug sm block [] sm' diff event queue inv h =
      mine_then_bury-IsTracked debug (record sm { unburied_blocks = block ∷ [] }) block []
        (matches sm) sm' diff event refl
        (record {
          sorted = inv.sorted;
          bound = λ txid lifecycle height blockhash found at.
              ground (arith, inv.bound txid lifecycle height blockhash);
        })
        (ground arith)
  process_block-IsTracked debug sm block (tip ∷ older) sm' diff event queue inv h =
      elim (Bool-cases (block.header.prev_blockhash == block_hash tip)) [
        | inl extends ↦
            mine_then_bury-IsTracked debug (record sm { unburied_blocks = block ∷ tip ∷ older })
              block (tip ∷ older) (matches sm) sm' diff event refl
              (record {
                sorted = inv.sorted;
                bound = λ txid lifecycle height blockhash found at.
                    ground (arith, inv.bound txid lifecycle height blockhash);
              })
              (ground arith)
        | inr stray ↦
            mine_then_bury-IsTracked debug sm tip older (matches sm) sm' diff event queue inv
              (ground arith)
      ]
