-- ===== src/Notify/Filters.antt =====
-- Adding and removing filters (add_filter and rm_filter of crates/btc-notify/src/state_machine.rs).
use strata_bridge.Prelude.{
  none, some, List, [], ◌∷◌, ◌++◌, ◌≡◌, refl, length, pop_back, pop_last, arith, ==_refl,
}
use strata_bridge.Notify.{BtcZmqSm, TxPredicate, add_filter, rm_filter, position, swap_remove}

pop_last-append :
    (p q : TxPredicate) (ps : List TxPredicate) → pop_last p (ps ++ q ∷ []) ≡ (p ∷ ps, q)
pop_last-append p q [] = refl
pop_last-append p q (r ∷ rs) = ground (arith, pop_last-append r q rs)

pop_back-append : (q : TxPredicate) (ps : List TxPredicate) → pop_back (ps ++ q ∷ []) ≡ some (ps, q)
pop_back-append q [] = refl
pop_back-append q (p ∷ ps) = ground (arith, pop_last-append p q ps)

position-append :
    (q : TxPredicate) (ps : List TxPredicate)
    → position ps q ≡ none
    → position (ps ++ q ∷ []) q ≡ some (length ps)
unfolding position
position-append q [] absent = ground (arith, ==_refl q.address)
position-append q (p ∷ ps) absent = ground (arith, position-append q ps)

-- A filter that was not there is added and removed again without a trace.
pub rm_filter-add_filter :
    (sm : BtcZmqSm) (pred : TxPredicate)
    → position sm.tx_filters pred ≡ none
    → rm_filter (add_filter sm pred) pred ≡ sm
unfolding rm_filter add_filter swap_remove
rm_filter-add_filter sm pred absent = ground (
  arith,
  position-append pred sm.tx_filters absent,
  pop_back-append pred sm.tx_filters,
  ==_refl (length sm.tx_filters),
)
