-- ===== src/PogMusig.antt =====
-- The functor over the inputs of a peg-out graph, `PogMusigF` (crates/tx-graph/src/
-- pog_musig_functor.rs). An array of the source is an `Array` of its length, so the conversions that
-- the source unwraps cannot fail. Its children prove: Wire the round trip over the wire, Laws the
-- laws of a functor and of zipping.
pub mod Wire
pub mod Laws
mod Examples
use strata_bridge.Prelude.{
  Result, ok, err, and_then, ℕ, suc, Bool, Option, none, some, List, [], ◌∷◌, ◌++◌, map as map_list,
  ◌≡◌, refl,
}
use strata_bridge.Prelude.Array.{Array, nil, cons, to_list, take_array, from_const}
use strata_bridge.Prelude.Array

-- crates/primitives/src/constants.rs
abbrev pub num_assert_data_tx : ℕ
num_assert_data_tx = 39

abbrev pub num_payout_optimistic_inputs : ℕ
num_payout_optimistic_inputs = 5

abbrev pub num_payout_inputs : ℕ
num_payout_inputs = 4

pub record PogMusigF {ℓ} (T : Type ℓ) : Type ℓ where
  pub challenge : T
  pub pre_assert : T
  pub post_assert : Array T num_assert_data_tx
  pub payout_optimistic : Array T num_payout_optimistic_inputs
  pub payout : Array T num_payout_inputs
  pub disprove : T
  pub slash_stake : List (T × T)

infixl 5 ◌>>=◌
abbrev pub ◌>>=◌ {ℓ κ} : {A : Type ℓ} {B : Type κ} → Option A → (A → Option B) → Option B
none >>= f = none
some a >>= f = f a

-- Inversion of a chain that yields a value.
pub >>=-eq-some {ℓ κ} :
    {A : Type ℓ} {B : Type κ} (m : Option A) (f : A → Option B) {b : B}
    → (m >>= f) ≡ some b
    → (a : A) × (m ≡ some a) × (f a ≡ some b)
>>=-eq-some none f h = cc
>>=-eq-some (some a) f h = (a, refl, h)

module _ {ℓ} {T : Type ℓ} where
  -- `Iterator::next` on the vector's cursor.
  abbrev pub next : List T → Option (T × List T)
  next [] = none
  next (x ∷ xs) = some (x, xs)

  pub flatten_pairs : List (T × T) → List T
  flatten_pairs [] = []
  flatten_pairs ((a, b) ∷ pairs) = a ∷ b ∷ flatten_pairs pairs

  -- The `loop` of `unpack`, over what is left of the vector.
  pub take_pairs : List T → Option (List (T × T))
  take_pairs [] = some []
  take_pairs (a ∷ []) = none
  take_pairs (a ∷ b ∷ rest) = elim (take_pairs rest) [
    | none ↦ none
    | some pairs ↦ some ((a, b) ∷ pairs)
  ]

  unfoldable pub pack : PogMusigF T → List T
  unfolding flatten_pairs
  pack g =
      g.challenge
      ∷ g.pre_assert
      ∷ (to_list g.post_assert
          ++ (to_list g.payout_optimistic
              ++ (to_list g.payout ++ g.disprove ∷ flatten_pairs g.slash_stake)))

  unfoldable pub unpack : List T → Option (PogMusigF T)
  unfolding take_pairs
  unpack graph_vec = do
    (challenge, cursor) ← next graph_vec
    (pre_assert, cursor) ← next cursor
    (post_assert, cursor) ← take_array num_assert_data_tx cursor
    (payout_optimistic, cursor) ← take_array num_payout_optimistic_inputs cursor
    (payout, cursor) ← take_array num_payout_inputs cursor
    (disprove, cursor) ← next cursor
    slash_stake ← take_pairs cursor
    some (record {
      challenge = challenge;
      pre_assert = pre_assert;
      post_assert = post_assert;
      payout_optimistic = payout_optimistic;
      payout = payout;
      disprove = disprove;
      slash_stake = slash_stake;
    })

module _ {ℓ κ} {T : Type ℓ} {U : Type κ} where
  unfoldable pub map : (T → U) → PogMusigF T → PogMusigF U
  map f g = record {
    challenge = f g.challenge;
    pre_assert = f g.pre_assert;
    post_assert = Array.map f g.post_assert;
    payout_optimistic = Array.map f g.payout_optimistic;
    payout = Array.map f g.payout;
    disprove = f g.disprove;
    slash_stake = map_list (λ (a, b). (f a, f b)) g.slash_stake;
  }

  -- `zip` of two vectors of pairs stops at the shorter one.
  abbrev pub zip_pairs : List (T × T) → List (U × U) → List ((T × U) × (T × U))
  zip_pairs [] us = []
  zip_pairs (t ∷ ts) [] = []
  zip_pairs ((a, b) ∷ ts) ((c, d) ∷ us) = ((a, c), (b, d)) ∷ zip_pairs ts us

  unfoldable pub zip : PogMusigF T → PogMusigF U → PogMusigF (T × U)
  zip g h = record {
    challenge = (g.challenge, h.challenge);
    pre_assert = (g.pre_assert, h.pre_assert);
    post_assert = Array.zip_with (λ a b. (a, b)) g.post_assert h.post_assert;
    payout_optimistic = Array.zip_with (λ a b. (a, b)) g.payout_optimistic h.payout_optimistic;
    payout = Array.zip_with (λ a b. (a, b)) g.payout h.payout;
    disprove = (g.disprove, h.disprove);
    slash_stake = zip_pairs g.slash_stake h.slash_stake;
  }

  unfoldable pub unzip : PogMusigF (T × U) → PogMusigF T × PogMusigF U
  unfolding map
  unzip g = (
    record {
      challenge = g.challenge.0;
      pre_assert = g.pre_assert.0;
      post_assert = Array.map (λ x. x.0) g.post_assert;
      payout_optimistic = Array.map (λ x. x.0) g.payout_optimistic;
      payout = Array.map (λ x. x.0) g.payout;
      disprove = g.disprove.0;
      slash_stake = map_list (λ (x, y). (x.0, y.0)) g.slash_stake;
    },
    record {
      challenge = g.challenge.1;
      pre_assert = g.pre_assert.1;
      post_assert = Array.map (λ x. x.1) g.post_assert;
      payout_optimistic = Array.map (λ x. x.1) g.payout_optimistic;
      payout = Array.map (λ x. x.1) g.payout;
      disprove = g.disprove.1;
      slash_stake = map_list (λ (x, y). (x.1, y.1)) g.slash_stake;
    },
  )

module _ {ℓ κ μ} {A : Type ℓ} {B : Type κ} {C : Type μ} where
  unfoldable pub zip_with : (A → B → C) → PogMusigF A → PogMusigF B → PogMusigF C
  unfolding map zip
  zip_with f a b = map (λ (x, y). f x y) (zip a b)

module _ {ℓ} {A B C D E : Type ℓ} where
  unfoldable pub zip5 :
      PogMusigF A
      → PogMusigF B
      → PogMusigF C
      → PogMusigF D
      → PogMusigF E
      → PogMusigF (A × B × C × D × E)
  unfolding map zip
  zip5 a b c d e =
      map (λ x. (x.0.0.0.0, x.0.0.0.1, x.0.0.1, x.0.1, x.1)) (zip (zip (zip (zip a b) c) d) e)

module _ {ℓ} {A B C D O : Type ℓ} where
  unfoldable pub zip_with_4 :
      (A → B → C → D → O) → PogMusigF A → PogMusigF B → PogMusigF C → PogMusigF D → PogMusigF O
  unfolding map zip
  zip_with_4 f a b c d = map (λ x. f x.0.0 x.0.1 x.1.0 x.1.1) (zip (zip a b) (zip c d))

module _ {ℓ} {T : Type ℓ} where
  -- `Semigroup::merge` at vectors: the elements are joined place by place.
  unfoldable pub merge : PogMusigF (List T) → PogMusigF (List T) → PogMusigF (List T)
  unfolding zip_with
  merge a b = zip_with (λ x y. x ++ y) a b

  abbrev pub empty_pairs : List (PogMusigF T) → List (List T × List T)
  empty_pairs [] = []
  empty_pairs (g ∷ gs) = map_list (λ _. ([], [])) g.slash_stake

  -- The fold's initial value: as many pairs as the first graph has.
  unfoldable pub empty_like : List (PogMusigF T) → PogMusigF (List T)
  empty_like graphs = record {
    challenge = [];
    pre_assert = [];
    post_assert = from_const num_assert_data_tx [];
    payout_optimistic = from_const num_payout_optimistic_inputs [];
    payout = from_const num_payout_inputs [];
    disprove = [];
    slash_stake = empty_pairs graphs;
  }

  unfoldable pub merge_all : PogMusigF (List T) → List (PogMusigF T) → PogMusigF (List T)
  unfolding merge map
  merge_all acc [] = acc
  merge_all acc (g ∷ graphs) = merge_all (merge acc (map (λ a. a ∷ []) g)) graphs

  unfoldable pub sequence_pog_musig_f : List (PogMusigF T) → PogMusigF (List T)
  unfolding merge_all empty_like
  sequence_pog_musig_f graphs = merge_all (empty_like graphs) graphs

module _ {ℓ} {A B C O : Type ℓ} where
  unfoldable pub zip_with_3 :
      (A → B → C → O) → PogMusigF A → PogMusigF B → PogMusigF C → PogMusigF O
  unfolding map zip
  zip_with_3 f a b c = map (λ x. f x.0.0 x.0.1 x.1) (zip (zip a b) c)

module _ {ℓ} {T : Type ℓ} where
  -- `collect::<Option<Vec<_>>>()` on an array, on a vector of pairs, and on the whole graph.
  abbrev pub all_some : {n : ℕ} → Array (Option T) n → Option (Array T n)
  all_some nil = some nil
  all_some (cons a rest) = elim a [
    | none ↦ none
    | some x ↦ elim (all_some rest) [ none ↦ none | some xs ↦ some (cons x xs) ]
  ]

  abbrev pub all_some_pairs : List (Option T × Option T) → Option (List (T × T))
  all_some_pairs [] = some []
  all_some_pairs ((a, b) ∷ pairs) = elim a [
    | none ↦ none
    | some x ↦ elim b [
      | none ↦ none
      | some y ↦ elim (all_some_pairs pairs) [ none ↦ none | some rest ↦ some ((x, y) ∷ rest) ]
    ]
  ]

  unfoldable pub sequence_option : PogMusigF (Option T) → Option (PogMusigF T)
  sequence_option g = do
    challenge ← g.challenge
    pre_assert ← g.pre_assert
    post_assert ← all_some g.post_assert
    payout_optimistic ← all_some g.payout_optimistic
    payout ← all_some g.payout
    disprove ← g.disprove
    slash_stake ← all_some_pairs g.slash_stake
    some (record {
      challenge = challenge;
      pre_assert = pre_assert;
      post_assert = post_assert;
      payout_optimistic = payout_optimistic;
      payout = payout;
      disprove = disprove;
      slash_stake = slash_stake;
    })

module _ {ℓ} {T E : Type ℓ} where
  -- `collect::<Result<Vec<_>, E>>()` on an array, on a vector of pairs, and on the whole graph.
  abbrev pub all_ok : {n : ℕ} → Array (Result T E) n → Result (Array T n) E
  all_ok nil = ok nil
  all_ok (cons a rest) = and_then a (λ x. and_then (all_ok rest) (λ xs. ok (cons x xs)))

  abbrev pub all_ok_pairs : List (Result T E × Result T E) → Result (List (T × T)) E
  all_ok_pairs [] = ok []
  all_ok_pairs ((a, b) ∷ pairs) =
      and_then a (λ x. and_then b (λ y. and_then (all_ok_pairs pairs) (λ rest. ok ((x, y) ∷ rest))))

  unfoldable pub sequence_result : PogMusigF (Result T E) → Result (PogMusigF T) E
  sequence_result g = and_then g.challenge (λ challenge. and_then g.pre_assert (λ pre_assert.
      and_then (all_ok g.post_assert) (λ post_assert.
        and_then (all_ok g.payout_optimistic) (λ payout_optimistic.
          and_then (all_ok g.payout) (λ payout. and_then g.disprove (λ disprove.
            and_then (all_ok_pairs g.slash_stake) (λ slash_stake. ok (record {
              challenge = challenge;
              pre_assert = pre_assert;
              post_assert = post_assert;
              payout_optimistic = payout_optimistic;
              payout = payout;
              disprove = disprove;
              slash_stake = slash_stake;
            }))))))))

module _ {ℓ} {A B C : Type ℓ} where
  unfoldable pub zip3 : PogMusigF A → PogMusigF B → PogMusigF C → PogMusigF (A × B × C)
  unfolding zip_with_3
  zip3 a b c = zip_with_3 (λ x y z. (x, y, z)) a b c

module _ {ℓ} {A B C D : Type ℓ} where
  unfoldable pub zip4 :
      PogMusigF A → PogMusigF B → PogMusigF C → PogMusigF D → PogMusigF (A × B × C × D)
  unfolding zip_with_4
  zip4 a b c d = zip_with_4 (λ x y z w. (x, y, z, w)) a b c d

module _ {ℓ} {A B : Type ℓ} where
  abbrev pub apply_pairs : List ((A → B) × (A → B)) → List (A × A) → List (B × B)
  apply_pairs [] pairs = []
  apply_pairs (f ∷ fs) [] = []
  apply_pairs ((f, g) ∷ fs) ((a, b) ∷ pairs) = (f a, g b) ∷ apply_pairs fs pairs

  unfoldable pub zip_apply : PogMusigF (A → B) → PogMusigF A → PogMusigF B
  zip_apply f a = record {
    challenge = f.challenge a.challenge;
    pre_assert = f.pre_assert a.pre_assert;
    post_assert = Array.zip_with (λ g x. g x) f.post_assert a.post_assert;
    payout_optimistic = Array.zip_with (λ g x. g x) f.payout_optimistic a.payout_optimistic;
    payout = Array.zip_with (λ g x. g x) f.payout a.payout;
    disprove = f.disprove a.disprove;
    slash_stake = apply_pairs f.slash_stake a.slash_stake;
  }
