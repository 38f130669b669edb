-- ===== src/Prelude/Array.antt =====
-- Rust's `[T; N]`: a sequence of a fixed length, and the conversions that the bridge uses.
use Prim.Native.Nat.{ℕ, zero, suc, ◌+◌, ◌≤◌}
use mathlib.Core.Path.{◌≡◌, refl, ap, subst}
use mathlib.Core.List.{List, [], ◌∷◌, ◌++◌, map as map_list}
use mathlib.Core.Option.{Option, none, some}
use native.Mathlib.Omega.{arith}
use strata_bridge.Prelude.Lists.{length}

pub data Array {ℓ} (A : Type ℓ) : ℕ → Type ℓ where
  nil : Array A zero
  cons : {n : ℕ} → A → Array A n → Array A (suc n)

module _ {ℓ} {A : Type ℓ} where
  abbrev pub to_list : {n : ℕ} → Array A n → List A
  to_list nil = []
  to_list (cons a xs) = a ∷ to_list xs

  -- `cursor.take(N).collect::<Vec<_>>().try_into()`, with what is left of the cursor.
  unfoldable pub take_array : (n : ℕ) → List A → Option (Array A n × List A)
  take_array zero xs = some (nil, xs)
  take_array (suc n) [] = none
  take_array (suc n) (x ∷ xs) = elim (take_array n xs) [
    | none ↦ none
    | some (front, rest) ↦ some (cons x front, rest)
  ]

  -- `array::from_fn(|_| a)`.
  abbrev pub from_const : (n : ℕ) → A → Array A n
  from_const zero a = nil
  from_const (suc n) a = cons a (from_const n a)

  -- `array::from_fn(f)`.
  abbrev pub from_fn : (n : ℕ) → (ℕ → A) → Array A n
  from_fn zero f = nil
  from_fn (suc n) f = cons (f 0) (from_fn n (λ i. f (suc i)))

  -- `xs[0]`.
  abbrev pub head : {n : ℕ} → Array A (suc n) → A
  head (cons a xs) = a

  pub length-to_list : {n : ℕ} (xs : Array A n) → length (to_list xs) ≡ n
  length-to_list nil = refl
  length-to_list (cons a xs) = ap suc (length-to_list xs)

  pub take_array-to_list :
      {n : ℕ} (xs : Array A n) (rest : List A) → take_array n (to_list xs ++ rest) ≡ some (xs, rest)
  unfolding take_array
  take_array-to_list nil rest = refl
  take_array-to_list (cons a xs) rest = rw (take_array-to_list xs rest, take_array)

  -- What an attempt to take an array says of the list: it was too short, or it is put together
  -- again from the array and the rest.
  abbrev pub Splits : (n : ℕ) → List A → Option (Array A n × List A) → Type ℓ
  Splits n xs none = Unit
  Splits n xs (some (front, rest)) = xs ≡ to_list front ++ rest

  Splits-cons :
      (n : ℕ) (x : A) (xs : List A) (r : Option (Array A n × List A))
      → Splits n xs r
      → Splits
          (suc n)
          (x ∷ xs)
          (elim r [ none ↦ none | some (front, rest) ↦ some (cons x front, rest) ])
  Splits-cons n x xs none h = tt
  Splits-cons n x xs (some (front, rest)) h = ap (◌∷◌ x) h

  take_array-Splits : (n : ℕ) (xs : List A) → Splits n xs (take_array n xs)
  unfolding take_array
  take_array-Splits zero xs = refl
  take_array-Splits (suc n) [] = tt
  take_array-Splits (suc n) (x ∷ xs) = Splits-cons n x xs (take_array n xs) (take_array-Splits n xs)

  pub take_array_lem :
      (n : ℕ) (xs : List A) (front : Array A n) (rest : List A)
      → take_array n xs ≡ some (front, rest)
      → xs ≡ to_list front ++ rest
  take_array_lem n xs front rest h = subst (Splits n xs) h (take_array-Splits n xs)

  pub take_array_total :
      (n : ℕ) (xs : List A)
      → n ≤ length xs
      → (front : Array A n) × (rest : List A) × (take_array n xs ≡ some (front, rest))
        × (n + length rest ≡ length xs)
  unfolding take_array
  take_array_total zero xs h = (nil, xs, refl, omega arith)
  take_array_total (suc n) [] h = absurd (omega arith)
  take_array_total (suc n) (x ∷ xs) h =
      let (front, rest, e, l) = take_array_total n xs (omega arith) in
      (cons x front, rest, rw (e, take_array), omega arith)

module _ {ℓ κ} {A : Type ℓ} {B : Type κ} where
  abbrev pub map : {n : ℕ} → (A → B) → Array A n → Array B n
  map f nil = nil
  map f (cons a xs) = cons (f a) (map f xs)

  pub to_list-map :
      {n : ℕ} (f : A → B) (xs : Array A n) → to_list (map f xs) ≡ map_list f (to_list xs)
  to_list-map f nil = refl
  to_list-map f (cons a xs) = ap (◌∷◌ (f a)) (to_list-map f xs)

module _ {ℓ κ μ} {A : Type ℓ} {B : Type κ} {C : Type μ} where
  -- `a.into_iter().zip(b).map(f)`, collected into an array again.
  abbrev pub zip_with : {n : ℕ} → (A → B → C) → Array A n → Array B n → Array C n
  zip_with f nil nil = nil
  zip_with f (cons a xs) (cons b ys) = cons (f a b) (zip_with f xs ys)
