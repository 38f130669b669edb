-- ===== src/Notify/Burial.antt =====
-- When a block is buried (process_block of crates/btc-notify/src/state_machine.rs).
use mathlib.Core.List.{reverse, reverse-cons, append_assoc, append-nil}
use strata_bridge.Prelude.{
  suc, ◌+◌, ◌≤◌, Bool, Option, some, List, [], ◌∷◌, ◌++◌, ◌≡◌, refl, sym, ◌∙◌, ap, map, filter,
  length, length-append, done, >>=-eq-done, arith, pop_last,
}
use strata_bridge.Bitcoin.{Block, Hashing}
use strata_bridge.Notify.{
  BtcZmqSm, TxEvent, BlockEvent, BlockStatus, matches, mined_event, buried_event, mine_all,
  bury_oldest, process_block,
}
use strata_bridge.Notify.Blocks.{
  Extends, overdue, burials, burial_of, process_block_lem, process_block-reports,
}

module _ (env : Hashing) (debug : Bool) where
  -- Blocks are processed one after the other, the first of the list first, each on top of the tip.
  pub data Grows : BtcZmqSm → List Block → BtcZmqSm → Type 0 where
    stop : {sm : BtcZmqSm} → Grows sm [] sm
    grow :
        {block : Block} {sm s t : BtcZmqSm} {blocks : List Block} (diff : List TxEvent)
        (event : Option BlockEvent)
        → Extends env sm block
        → process_block env debug sm block ≡ done (s, diff, event)
        → Grows s blocks t
        → Grows sm (block ∷ blocks) t

  -- A block that buries none is put in front of the others.
  process_block-young :
      (sm s : BtcZmqSm) (block : Block) (diff : List TxEvent) (event : Option BlockEvent)
      → Extends env sm block
      → suc (length sm.unburied_blocks) ≤ sm.bury_depth
      → process_block env debug sm block ≡ done (s, diff, event)
      → (s.unburied_blocks ≡ block ∷ sm.unburied_blocks)
        × (s.bury_depth ≡ sm.bury_depth)
        × (s.tx_filters ≡ sm.tx_filters)
  unfolding bury_oldest
  process_block-young sm s block diff event extends young h =
      let ((final, mined), e, h') =
        >>=-eq-done (mine_all env debug block (filter (matches sm) block.txdata) sm.tx_lifecycles) _
          (sym (process_block_lem env debug sm block extends) ∙ h) in
      ground arith

  Grows-unburied :
      {sm t : BtcZmqSm} {blocks : List Block}
      → Grows sm blocks t
      → length sm.unburied_blocks + length blocks ≤ sm.bury_depth
      → (t.unburied_blocks ≡ reverse blocks ++ sm.unburied_blocks)
        × (t.bury_depth ≡ sm.bury_depth)
        × (t.tx_filters ≡ sm.tx_filters)
  Grows-unburied stop young = (refl, refl, refl)
  Grows-unburied {sm} (grow {block = b} {s = s} {blocks = bs} diff event extends h run) young =
      let (queued, depth, filters) =
        process_block-young sm s b diff event extends (omega arith) h in
      let fits : length s.unburied_blocks + length bs ≤ s.bury_depth =
        omega (arith, ap length queued) in
      let (queued', depth', filters') = Grows-unburied run fits in
      (
        queued'
            ∙ ap (◌++◌ (reverse bs)) queued
            ∙ sym (append_assoc (reverse bs) (b ∷ []) sm.unburied_blocks)
            ∙ ap (λ front. front ++ sm.unburied_blocks) (sym (reverse-cons b bs)),
        depth' ∙ depth,
        filters' ∙ filters,
      )

  pop_last-append : (x y : Block) (xs : List Block) → (pop_last x (xs ++ y ∷ [])).1 ≡ y
  pop_last-append x y [] = refl
  pop_last-append x y (z ∷ zs) = pop_last-append z y zs

  length-reverse : (bs : List Block) → length (reverse bs) ≡ length bs
  length-reverse [] = refl
  length-reverse (b ∷ bs) =
      omega (
        arith,
        ap length (reverse-cons b bs),
        length-append (reverse bs) (b ∷ []),
        length-reverse bs,
      )

  -- A machine that has no block yet processes a chain of as many blocks as the bury depth, and then
  -- one more. That last block buries the first of the chain: it is reported as buried, and after the transactions of the last block so is each transaction of the first block
  -- that passes a filter.
  pub Grows-buried :
      (sm t u : BtcZmqSm) (first last : Block) (between : List Block)
      → (diff : List TxEvent) (event : Option BlockEvent) → sm.unburied_blocks ≡ []
      → length (first ∷ between) ≡ sm.bury_depth
      → Grows sm (first ∷ between) t
      → Extends env t last
      → process_block env debug t last ≡ done (u, diff, event)
      → (event ≡ some (record { block = first; status = BlockStatus.buried }))
        × (diff
            ≡ map (mined_event env last) (filter (matches t) last.txdata)
              ++ map (buried_event env first) (filter (matches t) first.txdata))
  Grows-buried sm t u first last between diff event empty full run extends h =
      let (queued, depth, filters) = Grows-unburied run (ground arith) in
      let chain : t.unburied_blocks ≡ reverse between ++ first ∷ [] =
        queued
        ∙ ap (◌++◌ (reverse (first ∷ between))) empty
        ∙ append-nil (reverse (first ∷ between))
        ∙ reverse-cons first between in
      let (reported, buried) = process_block-reports env debug t u last diff event extends h in
      let old : overdue t.bury_depth (last ∷ t.unburied_blocks) ≡ some first = rw chain (
        ground (
          arith,
          length-append (reverse between) (first ∷ []),
          length-reverse between,
          pop_last-append last first (reverse between),
        )) in
      (
        buried ∙ ap burial_of old,
        reported
            ∙ ap
                (λ oldest.
                  map (mined_event env last) (filter (matches t) last.txdata)
                  ++ burials env t oldest)
                old,
      )
