-- ===== src/Prelude/Outcomes.antt =====
-- How a call ends: with a value, with an error that the caller sees, or by a panic.
use mathlib.Core.Path.{◌≡◌, refl}
use mathlib.Core.Logic.{◌≢◌}
use mathlib.Core.Bool.{Bool, true, false}

-- A computation that may panic and has no other failure.
pub data Run {ℓ} (A : Type ℓ) : Type ℓ where
  done : A → Run A
  panicked : Run A

infixl 5 ◌>>=◌
abbrev pub ◌>>=◌ {ℓ κ} : {A : Type ℓ} {B : Type κ} → Run A → (A → Run B) → Run B
done a >>= f = f a
panicked >>= f = panicked

-- `debug_assert!`: checked only in a build with debug assertions.
abbrev pub debug_assert {ℓ} : {A : Type ℓ} → Bool → Bool → Run A → Run A
debug_assert true false rest = panicked
debug_assert true true rest = rest
debug_assert false holds rest = rest

-- Inversion of a bind that ends with a value.
pub >>=-eq-done {ℓ κ} :
    {A : Type ℓ} {B : Type κ} (m : Run A) (f : A → Run B) {b : B}
    → (m >>= f) ≡ done b
    → (a : A) × (m ≡ done a) × (f a ≡ done b)
>>=-eq-done (done a) f h = (a, refl, h)
>>=-eq-done panicked f h = cc

pub done_of_ne-panicked {ℓ} : {A : Type ℓ} (m : Run A) → m ≢ panicked → (a : A) × (m ≡ done a)
done_of_ne-panicked (done a) h = (a, refl)
done_of_ne-panicked panicked h = absurd (h refl)

-- `Result<A, E>`.
pub data Result {ℓ κ} (A : Type ℓ) (E : Type κ) : Type (ℓ ⊔ κ) where
  ok : A → Result A E
  err : E → Result A E

-- `Result::and_then`.
abbrev pub and_then {ℓ κ μ} :
    {A : Type ℓ} {B : Type κ} {E : Type μ} → Result A E → (A → Result B E) → Result B E
and_then (ok a) f = f a
and_then (err e) f = err e
