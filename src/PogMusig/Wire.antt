-- ===== src/PogMusig/Wire.antt =====
-- Graph data as the vector that is sent over the wire (pack and unpack of
-- crates/tx-graph/src/pog_musig_functor.rs).
use Prim.Native.Nat.{◌*◌}
use mathlib.Core.Option.{some-injective}
use strata_bridge.Prelude.{
  ℕ, zero, suc, ◌+◌, ◌≤◌, some, List, [], ◌∷◌, ◌≡◌, refl, ap, length, arith, Option-cases, inl, inr,
}
use strata_bridge.Prelude.Array.{take_array, take_array-to_list, take_array_lem, take_array_total}
use strata_bridge.PogMusig.{
  PogMusigF, >>=-eq-some, pack, unpack, next, take_pairs, flatten_pairs, num_assert_data_tx,
  num_payout_optimistic_inputs, num_payout_inputs,
}

module _ {ℓ} {T : Type ℓ} where
  take_pairs-flatten_pairs : (pairs : List (T × T)) → take_pairs (flatten_pairs pairs) ≡ some pairs
  unfolding take_pairs flatten_pairs
  take_pairs-flatten_pairs [] = refl
  take_pairs-flatten_pairs ((a, b) ∷ pairs) = rw (take_pairs-flatten_pairs pairs, take_pairs)

  -- What is packed is unpacked to the same data, whatever the data and the number of pairs.
  pub unpack-pack : (g : PogMusigF T) → unpack (pack g) ≡ some g
  unfolding pack unpack
  unpack-pack g =
      rw (take_array-to_list g.post_assert, unpack)
        (rw (take_array-to_list g.payout_optimistic, unpack)
          (rw (take_array-to_list g.payout, unpack)
            (rw (take_pairs-flatten_pairs g.slash_stake, unpack))))

  flatten_pairs-take_pairs :
      (xs : List T) (pairs : List (T × T)) → take_pairs xs ≡ some pairs → flatten_pairs pairs ≡ xs
  unfolding take_pairs flatten_pairs
  flatten_pairs-take_pairs [] pairs h = ground arith
  flatten_pairs-take_pairs (a ∷ []) pairs h = cc
  flatten_pairs-take_pairs (a ∷ b ∷ rest) pairs h = elim (Option-cases (take_pairs rest)) [
    | inl e ↦ ground arith
    | inr (more, e) ↦ ground (arith, flatten_pairs-take_pairs rest more e)
  ]

  next_lem : (xs : List T) (x : T) (rest : List T) → next xs ≡ some (x, rest) → xs ≡ x ∷ rest
  next_lem [] x rest h = cc
  next_lem (y ∷ ys) x rest h = ground arith

  -- A vector that is unpacked is what the data pack to: no part of it is lost or moved.
  pub pack-unpack : (xs : List T) (g : PogMusigF T) → unpack xs ≡ some g → pack g ≡ xs
  unfolding pack unpack
  pack-unpack [] g h = cc
  pack-unpack (a ∷ []) g h = cc
  pack-unpack (a ∷ b ∷ xs) g h =
      let ((post_assert, c), e1, h) = >>=-eq-some (take_array num_assert_data_tx xs) _ h in
      let ((optimistic, d), e2, h) = >>=-eq-some (take_array num_payout_optimistic_inputs c) _ h in
      let ((payout, f), e3, h) = >>=-eq-some (take_array num_payout_inputs d) _ h in
      let ((disprove, rest), e4, h) = >>=-eq-some (next f) _ h in
      let (pairs, e5, h) = >>=-eq-some (take_pairs rest) _ h in
      rw (← some-injective _ _ h) (
        cc (
          take_array_lem num_assert_data_tx xs post_assert c e1,
          take_array_lem num_payout_optimistic_inputs c optimistic d e2,
          take_array_lem num_payout_inputs d payout f e3,
          next_lem f disprove rest e4,
          flatten_pairs-take_pairs rest pairs e5,
        ))

  next_total :
      (xs : List T)
      → 1 ≤ length xs
      → (x : T) × (rest : List T) × (next xs ≡ some (x, rest)) × (1 + length rest ≡ length xs)
  next_total [] h = absurd (omega arith)
  next_total (x ∷ xs) h = (x, xs, refl, omega arith)

  take_pairs_total :
      (k : ℕ) (xs : List T)
      → length xs ≡ 2 * k
      → (pairs : List (T × T)) × (take_pairs xs ≡ some pairs) × (length pairs ≡ k)
  unfolding take_pairs
  take_pairs_total zero [] h = ([], refl, refl)
  take_pairs_total zero (a ∷ xs) h = absurd (omega arith)
  take_pairs_total (suc k) [] h = absurd (omega arith)
  take_pairs_total (suc k) (a ∷ []) h = absurd (omega arith)
  take_pairs_total (suc k) (a ∷ b ∷ xs) h =
      let (pairs, e, l) = take_pairs_total k xs (omega arith) in
      ((a, b) ∷ pairs, rw (e, take_pairs), ap suc l)

  -- Every vector of 51 elements and two more for each of k slash-stake transactions is unpacked,
  -- to data with k slash-stake pairs.
  pub unpack_total :
      (k : ℕ) (xs : List T)
      → length xs ≡ 51 + 2 * k
      → (g : PogMusigF T) × (unpack xs ≡ some g) × (length g.slash_stake ≡ k)
  unfolding unpack
  unpack_total k [] h = absurd (omega arith)
  unpack_total k (a ∷ []) h = absurd (omega arith)
  unpack_total k (a ∷ b ∷ xs) h =
      let (post_assert, c, e1, l1) = take_array_total num_assert_data_tx xs (omega arith) in
      let (optimistic, d, e2, l2) = take_array_total num_payout_optimistic_inputs c (omega arith) in
      let (payout, f, e3, l3) = take_array_total num_payout_inputs d (omega arith) in
      let (disprove, rest, e4, l4) = next_total f (omega arith) in
      let (pairs, e5, l5) = take_pairs_total k rest (omega arith) in
      (
        record {
          challenge = a;
          pre_assert = b;
          post_assert = post_assert;
          payout_optimistic = optimistic;
          payout = payout;
          disprove = disprove;
          slash_stake = pairs;
        },
        rw (e1, unpack) (rw (e2, unpack) (rw (e3, unpack) (rw (e4, unpack) (rw (e5, unpack))))),
        l5,
      )
