-- ===== src/Prelude/Collect.antt =====
-- What `collect` makes of a list of entries whose keys differ.
use strata_bridge.Prelude.Tests.{Option-cases}
use strata_bridge.Prelude.BTreeMap.{BTreeMap, get, insert, collect, collect_from, get-insert}
use Prim.Native.Nat.{ℕ}
use mathlib.Core.Path.{◌≡◌, refl, sym, ◌∙◌}
use mathlib.Core.Logic.{inl, inr}
use mathlib.Core.Option.{none, some}
use mathlib.Core.List.{List, [], ◌∷◌}
use native.Mathlib.Omega.{arith}

module _ {ℓ} {V : Type ℓ} where
  -- No key is listed twice.
  abbrev pub IsOnce : List (ℕ × V) → Type ℓ
  IsOnce [] = Unit
  IsOnce ((k, v) ∷ entries) = (get k entries ≡ none) × IsOnce entries

  pub get-collect_from_absent :
      (m entries : BTreeMap V) (k : ℕ)
      → get k entries ≡ none
      → get k (collect_from m entries) ≡ get k m
  unfolding collect_from get
  get-collect_from_absent m [] k absent = refl
  get-collect_from_absent m ((j, v) ∷ entries) k absent =
      ground (arith, get-collect_from_absent (insert j v m) entries k, get-insert j k v m)

  pub get-collect_from :
      (m entries : BTreeMap V) (k : ℕ) (v : V)
      → IsOnce entries
      → get k entries ≡ some v
      → get k (collect_from m entries) ≡ some v
  unfolding collect_from get
  get-collect_from m [] k w once at = cc
  get-collect_from m ((j, v) ∷ entries) k w once at = elim (Option-cases (get k entries)) [
    | inl last ↦
        ground (arith, get-collect_from_absent (insert j v m) entries k, get-insert j k v m)
    | inr (later, e) ↦ ground (arith, once.0, get-collect_from (insert j v m) entries k w once.1)
  ]

  pub get-collect :
      (entries : BTreeMap V) (k : ℕ) → IsOnce entries → get k (collect entries) ≡ get k entries
  unfolding collect get
  get-collect entries k once = elim (Option-cases (get k entries)) [
    | inl absent ↦ get-collect_from_absent [] entries k absent ∙ sym absent
    | inr (v, e) ↦ get-collect_from [] entries k v once e ∙ sym e
  ]
