-- ===== src/Prelude/BTreeMap.antt =====
-- `std::collections::BTreeMap` with keys that are numbers: the entries in the order of their keys.
-- A `HashMap` of the source is such a map too, where its order is not observed.
use Prim.Native.Nat.{ℕ, suc, ◌≤◌, ◌<◌}
use mathlib.Core.Path.{◌≡◌, refl}
use mathlib.Core.Logic.{◌≢◌, inl, inr}
use mathlib.Core.Bool.{Bool, true, false}
use mathlib.Core.List.{List, [], ◌∷◌}
use mathlib.Core.Option.{Option, none, some}
use native.Mathlib.Omega.{arith}
use strata_bridge.Prelude.Tests.{if◌then◌else◌, ◌==◌, ltb, Bool-cases}
use strata_bridge.Prelude.Lists.{length}

abbrev pub BTreeMap {ℓ} : Type ℓ → Type ℓ
BTreeMap V = List (ℕ × V)

module _ {ℓ} {V : Type ℓ} where
  unfoldable pub get : ℕ → BTreeMap V → Option V
  get k [] = none
  get k ((j, v) ∷ m) = if j == k then some v else get k m

  unfoldable pub insert : ℕ → V → BTreeMap V → BTreeMap V
  insert k v [] = (k, v) ∷ []
  insert k v ((j, w) ∷ m) =
      let rest = insert k v m in
      if j == k then (k, v) ∷ m else if ltb k j then (k, v) ∷ (j, w) ∷ m else (j, w) ∷ rest

  unfoldable pub remove : ℕ → BTreeMap V → BTreeMap V
  remove k [] = []
  remove k ((j, v) ∷ m) = let rest = remove k m in if j == k then rest else (j, v) ∷ rest

  -- `retain(|k, v| p(k, v))`.
  unfoldable pub retain : (ℕ → V → Bool) → BTreeMap V → BTreeMap V
  retain p [] = []
  retain p ((k, v) ∷ m) = let rest = retain p m in if p k v then (k, v) ∷ rest else rest

  unfoldable pub contains_key : ℕ → BTreeMap V → Bool
  unfolding get
  contains_key k m = elim (get k m) [ none ↦ false | some v ↦ true ]

  abbrev pub keys : BTreeMap V → List ℕ
  keys [] = []
  keys ((k, v) ∷ m) = k ∷ keys m

  abbrev pub values : BTreeMap V → List V
  values [] = []
  values ((k, v) ∷ m) = v ∷ values m

  -- `collect::<BTreeMap<_, _>>()`: a later entry replaces an earlier one of the same key.
  unfoldable pub collect_from : BTreeMap V → List (ℕ × V) → BTreeMap V
  unfolding insert
  collect_from m [] = m
  collect_from m ((k, v) ∷ entries) = collect_from (insert k v m) entries

  unfoldable pub collect : List (ℕ × V) → BTreeMap V
  unfolding collect_from
  collect entries = collect_from [] entries

  -- Keys rise along the list and are at least the bound.
  abbrev pub Above : ℕ → BTreeMap V → Type 0
  Above lo [] = Unit {0}
  Above lo ((k, v) ∷ m) = (lo ≤ k) × Above (suc k) m

  abbrev pub IsSorted : BTreeMap V → Type 0
  IsSorted m = Above 0 m

module _ {ℓ} {V : Type ℓ} where
  pub get-insert :
      (k j : ℕ) (v : V) (m : BTreeMap V)
      → get j (insert k v m) ≡ (if k == j then some v else get j m)
  unfolding get insert
  get-insert k j v [] = refl
  get-insert k j v ((i, w) ∷ m) = ground (arith, get-insert k j v m)

  pub get-insert_self : (k : ℕ) (v : V) (m : BTreeMap V) → get k (insert k v m) ≡ some v
  get-insert_self k v m = ground (arith, get-insert k k v m)

  pub get-insert_ne : (k j : ℕ) (v : V) (m : BTreeMap V) → k ≢ j → get j (insert k v m) ≡ get j m
  get-insert_ne k j v m h = ground (arith, get-insert k j v m)

  pub get-remove :
      (k j : ℕ) (m : BTreeMap V) → get j (remove k m) ≡ (if k == j then none else get j m)
  unfolding get remove
  get-remove k j [] = ground arith
  get-remove k j ((i, w) ∷ m) = ground (arith, get-remove k j m)

  pub remove_absent : (k : ℕ) (m : BTreeMap V) → get k m ≡ none → remove k m ≡ m
  unfolding get remove
  remove_absent k [] h = refl
  remove_absent k ((i, w) ∷ m) h = ground (arith, remove_absent k m)

  -- A key that was absent is inserted and removed without a trace.
  pub remove-insert_absent :
      (k : ℕ) (v : V) (m : BTreeMap V) → get k m ≡ none → remove k (insert k v m) ≡ m
  unfolding get insert remove
  remove-insert_absent k v [] h = ground arith
  remove-insert_absent k v ((i, w) ∷ m) h =
      ground (arith, remove-insert_absent k v m, remove_absent k m)

  -- The second write of a key wins.
  pub insert-insert_self :
      (k : ℕ) (v w : V) (m : BTreeMap V) → insert k w (insert k v m) ≡ insert k w m
  unfolding insert
  insert-insert_self k v w [] = ground arith
  insert-insert_self k v w ((i, u) ∷ m) = ground (arith, insert-insert_self k v w m)

  -- Writing what is there changes nothing, in a sorted map.
  pub Above-get-none : (lo k : ℕ) (m : BTreeMap V) → Above lo m → k < lo → get k m ≡ none
  unfolding get
  Above-get-none lo k [] s h = refl
  Above-get-none lo k ((i, w) ∷ m) s h = ground (arith, Above-get-none (suc i) k m s.1)

  pub insert_present :
      (lo k : ℕ) (v : V) (m : BTreeMap V) → Above lo m → get k m ≡ some v → insert k v m ≡ m
  unfolding get insert
  insert_present lo k v [] s h = cc
  insert_present lo k v ((i, w) ∷ m) s h =
      ground (arith, insert_present (suc i) k v m s.1, Above-get-none (suc i) k m s.1)

  pub Above-mono : (lo hi : ℕ) (m : BTreeMap V) → lo ≤ hi → Above hi m → Above lo m
  Above-mono lo hi [] h s = tt
  Above-mono lo hi ((k, v) ∷ m) h s = (omega arith, s.1)

  pub insert-Above :
      (lo k : ℕ) (v : V) (m : BTreeMap V) → lo ≤ k → Above lo m → Above lo (insert k v m)
  unfolding insert
  insert-Above lo k v [] h s = (h, tt)
  insert-Above lo k v ((i, w) ∷ m) h s = ground (arith, insert-Above (suc i) k v m)

  pub insert-IsSorted : (k : ℕ) (v : V) (m : BTreeMap V) → IsSorted m → IsSorted (insert k v m)
  insert-IsSorted k v m s = insert-Above 0 k v m (omega arith) s

  pub retain-Above :
      (p : ℕ → V → Bool) (lo : ℕ) (m : BTreeMap V) → Above lo m → Above lo (retain p m)
  unfolding retain
  retain-Above p lo [] s = tt
  retain-Above p lo ((i, w) ∷ m) s =
      ground (arith, retain-Above p (suc i) m s.1, Above-mono lo (suc i) (retain p m))

  pub remove-Above : (k lo : ℕ) (m : BTreeMap V) → Above lo m → Above lo (remove k m)
  unfolding remove
  remove-Above k lo [] s = tt
  remove-Above k lo ((i, w) ∷ m) s =
      ground (arith, remove-Above k (suc i) m s.1, Above-mono lo (suc i) (remove k m))

  -- An entry that the test refuses may come and go without a trace.
  pub retain-insert :
      (p : ℕ → V → Bool) (k : ℕ) (v : V) (m : BTreeMap V)
      → p k v ≡ false
      → ((w : V) → get k m ≡ some w → p k w ≡ false)
      → retain p (insert k v m) ≡ retain p m
  unfolding get insert retain
  retain-insert p k v [] h old = ground arith
  retain-insert p k v ((i, w) ∷ m) h old = elim (Bool-cases (i == k)) [
    | inl e ↦ ground (arith, old w)
    | inr e ↦ ground (arith, retain-insert p k v m h (λ u g. old u (rw e g)))
  ]

  pub get-retain :
      (p : ℕ → V → Bool) (k lo : ℕ) (v : V) (m : BTreeMap V)
      → Above lo m
      → get k (retain p m) ≡ some v
      → (get k m ≡ some v) × (p k v ≡ true)
  unfolding get retain
  get-retain p k lo v [] s h = cc
  get-retain p k lo v ((i, w) ∷ m) s h =
      ground (arith, get-retain p k (suc i) v m s.1, Above-get-none (suc i) k m s.1)

  pub length-insert :
      (k lo : ℕ) (v : V) (m : BTreeMap V)
      → Above lo m
      → length (insert k v m) ≡ (if contains_key k m then length m else suc (length m))
  unfolding insert contains_key
  length-insert k lo v [] s = refl
  length-insert k lo v ((i, w) ∷ m) s =
      ground (arith, length-insert k (suc i) v m s.1, Above-get-none (suc i) k m s.1)
