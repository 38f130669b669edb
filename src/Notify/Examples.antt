-- ===== src/Notify/Examples.antt =====
-- The theorems on the ZMQ machine at concrete messages: a filter that accepts everything, blocks
-- and transactions whose hashes can be read off them.
use strata_bridge.Prelude.{
  ℕ, suc, true, false, Option, none, some, List, [], ◌∷◌, ◌++◌, map, filter, ◌≡◌, refl, arith, ◌==◌,
  done,
}
use strata_bridge.Prelude.BTreeMap.{get, insert, remove}
use strata_bridge.Bitcoin.{Transaction, Block, Hashing}
use strata_bridge.Notify.{
  BtcZmqSm, TxPredicate, TxStatus, TxEvent, BlockEvent, BlockStatus, init, add_filter, rm_filter,
  position, matches, process_tx, process_sequence, process_block, mempool_acceptance,
  block_disconnect, dropped_events, mined_event, buried_event,
}
use strata_bridge.Notify.Mempool.{
  process_tx-process_sequence, process_tx_twice, awaiting, holding, event_of,
}
use strata_bridge.Notify.Blocks.{
  Extends, queue, overdue, still_waiting, burials, burial_of, process_block-reports,
  process_block_total, process_block_stray,
}
use strata_bridge.Notify.Disconnect.{block_disconnect-process_block}
use strata_bridge.Notify.Tracked.{IsTracked}
use strata_bridge.Notify.Reachable.{here, next, subscribe, rawtx, Reach-IsTracked}
use strata_bridge.Notify.Burial.{stop, grow, Grows-buried}
use strata_bridge.Notify.Filters.{rm_filter-add_filter}

abbrev tx_of : ℕ → Transaction
tx_of n = record { version = 2; lock_time = n; input = []; output = [] }

abbrev block_of : (hash prev : ℕ) → List Transaction → Block
block_of hash prev txs = record {
  header = record {
    version = 1;
    prev_blockhash = prev;
    merkle_root = 0;
    time = hash;
    bits = 0;
    nonce = hash;
  };
  txdata = txs;
}

abbrev env : Hashing
env = record {
  compute_txid = λ tx. tx.lock_time;
  block_hash = λ block. block.header.nonce;
  bip34_block_height = λ block. some block.header.time;
  tx_eq = λ a b. a.lock_time == b.lock_time;
}

abbrev everything : TxPredicate
everything = record { address = 1; holds = λ tx. true }

abbrev fresh : ℕ → BtcZmqSm
fresh depth = record {
  bury_depth = depth;
  tx_filters = everything ∷ [];
  tx_lifecycles = [];
  unburied_blocks = [];
}

abbrev first_block : Block
first_block = block_of 1 0 (tx_of 7 ∷ [])

abbrev buried_first : Option BlockEvent
buried_first = some (record { block = first_block; status = BlockStatus.buried })

abbrev second_block : Block
second_block = block_of 2 1 (tx_of 8 ∷ [])

-- The machine after the first block, and after the second one has buried it.
abbrev after_first : ℕ → BtcZmqSm
after_first depth = record {
  bury_depth = depth;
  tx_filters = everything ∷ [];
  tx_lifecycles = (7, some (record { raw = tx_of 7; block = some (1, 1) })) ∷ [];
  unburied_blocks = first_block ∷ [];
}

abbrev after_second : BtcZmqSm
after_second = record {
  bury_depth = 1;
  tx_filters = everything ∷ [];
  tx_lifecycles = (8, some (record { raw = tx_of 8; block = some (2, 2) })) ∷ [];
  unburied_blocks = second_block ∷ [];
}

mines_first :
    (depth : ℕ)
    → process_block env true (fresh (suc depth)) first_block
      ≡ done (after_first (suc depth), mined_event env first_block (tx_of 7) ∷ [], none)
unfolding process_block insert get
mines_first depth = ground arith

buries_first :
    process_block env true (after_first 1) second_block
    ≡ done (
      after_second,
      mined_event env second_block (tx_of 8) ∷ buried_event env first_block (tx_of 7) ∷ [],
      some (record { block = first_block; status = BlockStatus.buried }),
    )
unfolding process_block get remove insert
buries_first = refl

process_tx-process_sequence_example :
    let acceptance = mempool_acceptance 7 0 in
    let both : BtcZmqSm = holding env (fresh 6) (tx_of 7) in
    (process_tx env (fresh 6) (tx_of 7) ≡ (both, []))
    × (process_sequence env both acceptance
        ≡ done (both, event_of (tx_of 7) TxStatus.mempool ∷ [], none))
    × (process_sequence env (fresh 6) acceptance
        ≡ done (awaiting env (fresh 6) (tx_of 7), [], none))
    × (process_tx env (awaiting env (fresh 6) (tx_of 7)) (tx_of 7)
        ≡ (both, event_of (tx_of 7) TxStatus.mempool ∷ []))
unfolding get
process_tx-process_sequence_example =
    process_tx-process_sequence env (fresh 6) (tx_of 7) 0 refl refl

process_tx_twice_example :
    let first : BtcZmqSm = (process_tx env (fresh 6) (tx_of 7)).0 in
    process_tx env first (tx_of 7) ≡ (first, [])
process_tx_twice_example = process_tx_twice env (fresh 6) (tx_of 7)

after_first-Extends : Extends env (after_first 1) second_block
after_first-Extends = λ tip older e. ground arith

fresh-Extends : (depth : ℕ) → Extends env (fresh depth) first_block
fresh-Extends depth = λ tip older e. ground arith

process_block-reports_example :
    let old : Option Block = overdue 1 (queue (after_first 1) second_block) in
    (mined_event env second_block (tx_of 8) ∷ buried_event env first_block (tx_of 7) ∷ []
      ≡ map (mined_event env second_block) (filter (matches (after_first 1)) second_block.txdata)
        ++ burials env (after_first 1) old)
    × (buried_first ≡ burial_of old)
process_block-reports_example =
    process_block-reports env true (after_first 1) after_second second_block
      (mined_event env second_block (tx_of 8) ∷ buried_event env first_block (tx_of 7) ∷ [])
      buried_first after_first-Extends buries_first

process_block_total_example :
    (r : BtcZmqSm × List TxEvent × Option BlockEvent) × (process_block env false
        (after_first 1)
        (block_of 3 9 [])
      ≡ done r)
process_block_total_example = process_block_total env (after_first 1) (block_of 3 9 [])

process_block_stray_example :
    let old : Option Block = overdue 1 (after_first 1).unburied_blocks in
    (process_block env false (after_first 1) (block_of 3 9 [])
      ≡ process_block env false (record (after_first 1) { unburied_blocks = [] }) first_block)
    × (mined_event env first_block (tx_of 7) ∷ []
        ≡ map (mined_event env first_block) (filter (matches (after_first 1)) first_block.txdata)
          ++ burials env (after_first 1) old)
    × (none ≡ burial_of old)
    × ((after_first 1).tx_filters ≡ (after_first 1).tx_filters)
    × ((after_first 1).unburied_blocks ≡ still_waiting 1 (after_first 1).unburied_blocks)
unfolding process_block get insert
process_block_stray_example =
    process_block_stray env (after_first 1) (after_first 1) (block_of 3 9 []) first_block []
      (mined_event env first_block (tx_of 7) ∷ []) none refl (omega arith)
      (λ tip older e. ground arith) refl

block_disconnect-process_block_example :
    process_sequence env (after_first 6) (block_disconnect 1)
    ≡ done (
      fresh 6,
      dropped_events 1 (after_first 6).tx_lifecycles,
      some (record { block = first_block; status = BlockStatus.uncled }),
    )
unfolding get
block_disconnect-process_block_example =
    block_disconnect-process_block env true first_block (fresh 6) (after_first 6)
      (mined_event env first_block (tx_of 7) ∷ []) none (fresh-Extends 6) (omega arith)
      (λ w found. cc, tt) tt (mines_first 5)

Reach-IsTracked_example :
    IsTracked env (process_tx env (add_filter (init 6 []) everything) (tx_of 7)).0
Reach-IsTracked_example =
    Reach-IsTracked env true 6 [] (next (next here (subscribe everything)) (rawtx (tx_of 7)))

Grows-buried_example :
    (buried_first ≡ some (record { block = first_block; status = BlockStatus.buried }))
    × (mined_event env second_block (tx_of 8) ∷ buried_event env first_block (tx_of 7) ∷ []
        ≡ map (mined_event env second_block) (filter (matches (after_first 1)) second_block.txdata)
          ++ map
              (buried_event env first_block)
              (filter (matches (after_first 1)) first_block.txdata))
Grows-buried_example =
    Grows-buried env true (fresh 1) (after_first 1) after_second first_block second_block []
      (mined_event env second_block (tx_of 8) ∷ buried_event env first_block (tx_of 7) ∷ [])
      buried_first refl refl
      (grow (mined_event env first_block (tx_of 7) ∷ []) none (fresh-Extends 1) (mines_first 0)
        stop)
      after_first-Extends buries_first

rm_filter-add_filter_example : rm_filter (add_filter (init 6 []) everything) everything ≡ init 6 []
unfolding position init
rm_filter-add_filter_example = rm_filter-add_filter (init 6 []) everything refl
