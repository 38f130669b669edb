-- ===== src/Prelude/Cover.antt =====
-- The pigeonhole principle for the keys of an ordered map in a list of as many places.
use strata_bridge.Prelude.Tests.{if◌then◌else◌}
use strata_bridge.Prelude.Lists.{length, contains}
use strata_bridge.Prelude.BTreeMap.{
  BTreeMap, get, remove, contains_key, keys, Above, IsSorted, Above-get-none, remove-Above,
  get-remove,
}
use Prim.Native.Nat.{ℕ, suc, ◌≤◌}
use mathlib.Core.Path.{◌≡◌, refl, ap}
use mathlib.Core.Bool.{true}
use mathlib.Core.List.{List, [], ◌∷◌}
use native.Mathlib.Omega.{arith}

module _ {ℓ} {V : Type ℓ} where
  pub length-keys : (m : BTreeMap V) → length (keys m) ≡ length m
  length-keys [] = refl
  length-keys ((k, v) ∷ m) = ap suc (length-keys m)

  length-remove :
      (k lo : ℕ) (m : BTreeMap V)
      → Above lo m
      → length m ≡ (if contains_key k m then suc (length (remove k m)) else length (remove k m))
  unfolding get remove contains_key
  length-remove k lo [] s = refl
  length-remove k lo ((i, w) ∷ m) s =
      ground (arith, length-remove k (suc i) m s.1, Above-get-none (suc i) k m s.1)

  -- Every key of the map is in the list.
  abbrev pub IsWithin : BTreeMap V → List ℕ → Type 0
  IsWithin m ids = (k : ℕ) → contains_key k m ≡ true → contains ids k ≡ true

  remove-IsWithin :
      (id : ℕ) (ids : List ℕ) (m : BTreeMap V) → IsWithin m (id ∷ ids) → IsWithin (remove id m) ids
  unfolding contains_key
  remove-IsWithin id ids m h = λ k at. ground (arith, h k, get-remove id k m)

  IsWithin-nil : (m : BTreeMap V) → IsWithin m [] → length m ≡ 0
  unfolding contains_key get
  IsWithin-nil [] h = refl
  IsWithin-nil ((k, v) ∷ m) h = absurd (ground (arith, h k))

  pub length-IsWithin :
      (ids : List ℕ) (m : BTreeMap V) → IsSorted m → IsWithin m ids → length m ≤ length ids
  length-IsWithin [] m s h = ground (arith, IsWithin-nil m h)
  length-IsWithin (id ∷ ids) m s h = ground (
    arith,
    length-remove id 0 m s,
    length-IsWithin ids (remove id m) (remove-Above id 0 m s) (remove-IsWithin id ids m h),
  )

  -- A map with as many keys as the list has places, all of them in the list, has each of the list.
  pub IsWithin-covers :
      (ids : List ℕ) (m : BTreeMap V) (k : ℕ)
      → IsSorted m
      → IsWithin m ids
      → length ids ≤ length m
      → contains ids k ≡ true
      → contains_key k m ≡ true
  unfolding contains_key
  IsWithin-covers [] m k s h n at = ground arith
  IsWithin-covers (id ∷ ids) m k s h n at =
      let s' = remove-Above id 0 m s in
      let h' = remove-IsWithin id ids m h in
      ground (
        arith,
        length-remove id 0 m s,
        length-IsWithin ids (remove id m) s' h',
        IsWithin-covers ids (remove id m) k s' h',
        get-remove id k m,
      )
