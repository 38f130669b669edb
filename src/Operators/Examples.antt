-- ===== src/Operators/Examples.antt =====
-- The theorem on operator tables at a table of two operators.
use strata_bridge.Prelude.{some, [], ◌∷◌, ◌≡◌, refl, length, ◌==◌}
use strata_bridge.Prelude.BTreeMap.{get, insert, contains_key}
use strata_bridge.Operators.{
  OperatorTable, OperatorTableEntry, new, find, add_entries, add_entry, pov_p2p_key, pov_btc_key,
  cardinality,
}
use strata_bridge.Operators.Consistent.{IsConsistent, Lists, new-IsConsistent}

abbrev alice : OperatorTableEntry
alice = record { idx = 0; p2p = 10; btc = 20 }

abbrev bob : OperatorTableEntry
bob = record { idx = 1; p2p = 11; btc = 21 }

abbrev table : OperatorTable
table = record {
  pov = 1;
  idx_key = (0, (10, 20)) ∷ (1, (11, 21)) ∷ [];
  p2p_key = (10, (0, 20)) ∷ (11, (1, 21)) ∷ [];
  btc_key = (20, (0, 10)) ∷ (21, (1, 11)) ∷ [];
}

new-IsConsistent_example :
    IsConsistent table
    × Lists table (alice ∷ bob ∷ [])
    × (cardinality table ≡ length (alice ∷ bob ∷ []))
    × (us : OperatorTableEntry) × (find (λ e. e.idx == 1) (alice ∷ bob ∷ []) ≡ some us)
    × (table.pov ≡ us.idx)
    × (pov_p2p_key table ≡ some us.p2p)
    × (pov_btc_key table ≡ some us.btc)
unfolding new find add_entries add_entry insert get contains_key
new-IsConsistent_example = new-IsConsistent (alice ∷ bob ∷ []) (λ e. e.idx == 1) table refl
