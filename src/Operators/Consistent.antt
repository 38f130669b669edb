-- ===== src/Operators/Consistent.antt =====
-- The three maps of an operator table hold the same entries (OperatorTable::new of
-- crates/primitives/src/operator_table.rs).
use strata_bridge.Prelude.{
  ℕ, ◌+◌, Option-cases, Bool-cases, inl, inr, Bool, false, some, List, [], ◌∷◌, ◌≡◌, refl, length,
  All, arith,
}
use strata_bridge.Prelude.BTreeMap.{
  get, contains_key, get-insert, get-insert_self, IsSorted, insert-IsSorted, length-insert,
}
use strata_bridge.Operators.{
  OperatorTable, OperatorTableEntry, new, find, add_entry, add_entries, clashes, pov_p2p_key,
  pov_btc_key, cardinality,
}

-- Each map lists an operator exactly if the others do, with the same index and keys, and all three
-- have one entry for each operator.
pub record IsConsistent (t : OperatorTable) : Type 0 where
  pub idx_p2p :
      (idx p2p btc : ℕ) → get idx t.idx_key ≡ some (p2p, btc) → get p2p t.p2p_key ≡ some (idx, btc)
  pub p2p_btc :
      (idx p2p btc : ℕ) → get p2p t.p2p_key ≡ some (idx, btc) → get btc t.btc_key ≡ some (idx, p2p)
  pub btc_idx :
      (idx p2p btc : ℕ) → get btc t.btc_key ≡ some (idx, p2p) → get idx t.idx_key ≡ some (p2p, btc)
  pub sorted : IsSorted t.idx_key × IsSorted t.p2p_key × IsSorted t.btc_key
  pub same_p2p : length t.p2p_key ≡ length t.idx_key
  pub same_btc : length t.btc_key ≡ length t.idx_key

add_entry-IsConsistent :
    (t : OperatorTable) (e : OperatorTableEntry)
    → clashes t e ≡ false
    → IsConsistent t
    → IsConsistent (add_entry t e)
unfolding add_entry contains_key
add_entry-IsConsistent t e fresh c = record {
  idx_p2p = λ idx p2p btc h. ground (
    arith,
    c.idx_p2p idx p2p btc,
    get-insert e.idx idx (e.p2p, e.btc) t.idx_key,
    get-insert e.p2p p2p (e.idx, e.btc) t.p2p_key,
  );
  p2p_btc = λ idx p2p btc h. ground (
    arith,
    c.p2p_btc idx p2p btc,
    get-insert e.btc btc (e.idx, e.p2p) t.btc_key,
    get-insert e.p2p p2p (e.idx, e.btc) t.p2p_key,
  );
  btc_idx = λ idx p2p btc h. ground (
    arith,
    c.btc_idx idx p2p btc,
    get-insert e.btc btc (e.idx, e.p2p) t.btc_key,
    get-insert e.idx idx (e.p2p, e.btc) t.idx_key,
  );
  sorted = (
    insert-IsSorted e.idx (e.p2p, e.btc) t.idx_key c.sorted.0,
    insert-IsSorted e.p2p (e.idx, e.btc) t.p2p_key c.sorted.1,
    insert-IsSorted e.btc (e.idx, e.p2p) t.btc_key c.sorted.2,
  );
  same_p2p = ground (
    arith,
    c.same_p2p,
    length-insert e.idx 0 (e.p2p, e.btc) t.idx_key c.sorted.0,
    length-insert e.p2p 0 (e.idx, e.btc) t.p2p_key c.sorted.1,
  );
  same_btc = ground (
    arith,
    c.same_btc,
    length-insert e.idx 0 (e.p2p, e.btc) t.idx_key c.sorted.0,
    length-insert e.btc 0 (e.idx, e.p2p) t.btc_key c.sorted.2,
  );
}

add_entries-IsConsistent :
    (t t' : OperatorTable) (entries : List OperatorTableEntry)
    → add_entries t entries ≡ some t'
    → IsConsistent t
    → IsConsistent t'
unfolding add_entries
add_entries-IsConsistent t t' [] h c = let e : t' ≡ t = ground arith in rw e c
add_entries-IsConsistent t t' (e ∷ entries) h c = elim (Bool-cases (clashes t e)) [
  | inl clash ↦ absurd (ground arith)
  | inr fresh ↦
      add_entries-IsConsistent (add_entry t e) t' entries (ground arith)
        (add_entry-IsConsistent t e fresh c)
]

-- An entry stays where it is, since no later one has a key of it.
add_entries-get :
    (t t' : OperatorTable) (entries : List OperatorTableEntry) (idx : ℕ) (v : ℕ × ℕ)
    → add_entries t entries ≡ some t'
    → get idx t.idx_key ≡ some v
    → get idx t'.idx_key ≡ some v
unfolding add_entries add_entry contains_key
add_entries-get t t' [] idx v h at = ground arith
add_entries-get t t' (e ∷ entries) idx v h at = elim (Bool-cases (clashes t e)) [
  | inl clash ↦ absurd (ground arith)
  | inr fresh ↦
      add_entries-get (add_entry t e) t' entries idx v (ground arith)
        (ground (arith, get-insert e.idx idx (e.p2p, e.btc) t.idx_key))
]

add_entries-find :
    (t t' : OperatorTable) (is_us : OperatorTableEntry → Bool) (entries : List OperatorTableEntry)
    → (us : OperatorTableEntry) → add_entries t entries ≡ some t'
    → find is_us entries ≡ some us
    → get us.idx t'.idx_key ≡ some (us.p2p, us.btc)
unfolding add_entries add_entry find
add_entries-find t t' is_us [] us h found = cc
add_entries-find t t' is_us (e ∷ entries) us h found = elim (Bool-cases (clashes t e)) [
  | inl clash ↦ absurd (ground arith)
  | inr fresh ↦ ground (
    arith,
    add_entries-find (add_entry t e) t' is_us entries us,
    add_entries-get (add_entry t e) t' entries us.idx (us.p2p, us.btc),
    get-insert_self e.idx (e.p2p, e.btc) t.idx_key,
  )
]

-- Each of the entries is in the table under its own index, with its own keys.
abbrev pub Lists : OperatorTable → List OperatorTableEntry → Type 0
Lists t = All (λ (e : OperatorTableEntry). get e.idx t.idx_key ≡ some (e.p2p, e.btc))

add_entries-Lists :
    (t t' : OperatorTable) (entries : List OperatorTableEntry)
    → add_entries t entries ≡ some t'
    → Lists t' entries
unfolding add_entries add_entry
add_entries-Lists t t' [] h = tt
add_entries-Lists t t' (e ∷ entries) h = elim (Bool-cases (clashes t e)) [
  | inl clash ↦ absurd (ground arith)
  | inr fresh ↦ (
    add_entries-get (add_entry t e) t' entries e.idx (e.p2p, e.btc) (ground arith)
        (get-insert_self e.idx (e.p2p, e.btc) t.idx_key),
    add_entries-Lists (add_entry t e) t' entries (ground arith),
  )
]

length-add_entries :
    (t t' : OperatorTable) (entries : List OperatorTableEntry)
    → add_entries t entries ≡ some t'
    → IsConsistent t
    → cardinality t' ≡ cardinality t + length entries
unfolding add_entries add_entry
length-add_entries t t' [] h c = ground arith
length-add_entries t t' (e ∷ entries) h c = elim (Bool-cases (clashes t e)) [
  | inl clash ↦ absurd (ground arith)
  | inr fresh ↦ ground (
    arith,
    length-add_entries (add_entry t e) t' entries (ground arith)
        (add_entry-IsConsistent t e fresh c),
    length-insert e.idx 0 (e.p2p, e.btc) t.idx_key c.sorted.0,
  )
]

add_entries-pov :
    (t t' : OperatorTable) (entries : List OperatorTableEntry)
    → add_entries t entries ≡ some t'
    → t'.pov ≡ t.pov
unfolding add_entries add_entry
add_entries-pov t t' [] h = ground arith
add_entries-pov t t' (e ∷ entries) h = ground (arith, add_entries-pov (add_entry t e) t' entries)

empty-IsConsistent :
    (pov : ℕ) → IsConsistent (record { pov = pov; idx_key = []; p2p_key = []; btc_key = [] })
unfolding get
empty-IsConsistent pov = record {
  idx_p2p = λ idx p2p btc h. ground arith;
  p2p_btc = λ idx p2p btc h. ground arith;
  btc_idx = λ idx p2p btc h. ground arith;
  sorted = (tt, tt, tt);
  same_p2p = refl;
  same_btc = refl;
}

-- A table that is built has every given operator under its index, with its keys, and as many
-- entries as there are operators; its three maps agree; and this operator is the first one that the
-- selector accepts, and is in the table, so the lookups of its keys do not panic.
pub new-IsConsistent :
    (entries : List OperatorTableEntry) (is_us : OperatorTableEntry → Bool) (t : OperatorTable)
    → new entries is_us ≡ some t
    → IsConsistent t
      × Lists t entries
      × (cardinality t ≡ length entries)
      × (us : OperatorTableEntry) × (find is_us entries ≡ some us)
      × (t.pov ≡ us.idx)
      × (pov_p2p_key t ≡ some us.p2p)
      × (pov_btc_key t ≡ some us.btc)
unfolding new
new-IsConsistent entries is_us t h = elim (Option-cases (find is_us entries)) [
  | inl nobody ↦ absurd (ground arith)
  | inr (us, found) ↦
      let start : OperatorTable = record {
        pov = us.idx;
        idx_key = [];
        p2p_key = [];
        btc_key = [];
      } in
      let added : add_entries start entries ≡ some t = ground arith in
      let pov : t.pov ≡ us.idx = add_entries-pov start t entries added in
      let at = add_entries-find start t is_us entries us added found in
      (
        add_entries-IsConsistent start t entries added (empty-IsConsistent us.idx),
        add_entries-Lists start t entries added,
        ground (arith, length-add_entries start t entries added (empty-IsConsistent us.idx)),
        us,
        found,
        pov,
        ground arith,
        ground arith,
      )
]
