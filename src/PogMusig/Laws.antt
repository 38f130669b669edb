-- ===== src/PogMusig/Laws.antt =====
-- The laws of mapping and of zipping (map, zip and unzip of
-- crates/tx-graph/src/pog_musig_functor.rs).
use strata_bridge.Prelude.{ℕ, List, [], ◌∷◌, ◌++◌, map as map_list, ◌≡◌, refl, ap, length, arith}
use strata_bridge.Prelude.Array.{Array, nil, cons, to_list, to_list-map}
use strata_bridge.Prelude.Array
use mathlib.Core.List.{map-append}
use strata_bridge.PogMusig.{PogMusigF, pack, map, zip, unzip, zip_pairs, flatten_pairs}

module _ {ℓ κ} {T : Type ℓ} {U : Type κ} where
  flatten_pairs-map :
      (f : T → U) (pairs : List (T × T))
      → flatten_pairs (map_list (λ (a, b). (f a, f b)) pairs) ≡ map_list f (flatten_pairs pairs)
  unfolding flatten_pairs
  flatten_pairs-map f [] = refl
  flatten_pairs-map f ((a, b) ∷ pairs) = ap (λ rest. f a ∷ f b ∷ rest) (flatten_pairs-map f pairs)

  -- To map the data and to map the vector that it packs to is the same.
  pack-map : (f : T → U) (g : PogMusigF T) → pack (map f g) ≡ map_list f (pack g)
  unfolding pack map
  pack-map f g =
      let tail = g.disprove ∷ flatten_pairs g.slash_stake in
      let payouts = to_list g.payout ++ tail in
      cc (
        to_list-map f g.post_assert,
        to_list-map f g.payout_optimistic,
        to_list-map f g.payout,
        flatten_pairs-map f g.slash_stake,
        map-append f (to_list g.post_assert) (to_list g.payout_optimistic ++ payouts),
        map-append f (to_list g.payout_optimistic) payouts,
        map-append f (to_list g.payout) tail,
      )

  array_unzip :
      {n : ℕ} (xs : Array T n) (ys : Array U n)
      → (Array.map (λ x. x.0) (Array.zip_with {C = T × U} (λ a b. (a, b)) xs ys) ≡ xs)
        × (Array.map (λ x. x.1) (Array.zip_with {C = T × U} (λ a b. (a, b)) xs ys) ≡ ys)
  array_unzip nil nil = (refl, refl)
  array_unzip (cons a xs) (cons b ys) =
      let (e, f) = array_unzip xs ys in (ap (cons a) e, ap (cons b) f)

  pairs_unzip :
      (ts : List (T × T)) (us : List (U × U))
      → length ts ≡ length us
      → (map_list (λ (x, y). (x.0, y.0)) (zip_pairs ts us) ≡ ts)
        × (map_list (λ (x, y). (x.1, y.1)) (zip_pairs ts us) ≡ us)
  pairs_unzip [] [] h = (refl, refl)
  pairs_unzip [] (u ∷ us) h = absurd (omega arith)
  pairs_unzip (t ∷ ts) [] h = absurd (omega arith)
  pairs_unzip ((a, b) ∷ ts) ((c, d) ∷ us) h =
      let (e, f) = pairs_unzip ts us (omega arith) in (ap (◌∷◌ (a, b)) e, ap (◌∷◌ (c, d)) f)

  -- Data of two graphs with as many slash-stake transactions are zipped without loss: unzipping
  -- gives both back.
  pub unzip-zip :
      (g : PogMusigF T) (h : PogMusigF U)
      → length g.slash_stake ≡ length h.slash_stake
      → unzip (zip g h) ≡ (g, h)
  unfolding unzip zip
  unzip-zip g h same =
      let post_assert = array_unzip g.post_assert h.post_assert in
      let optimistic = array_unzip g.payout_optimistic h.payout_optimistic in
      let payout = array_unzip g.payout h.payout in
      let pairs = pairs_unzip g.slash_stake h.slash_stake same in
      λ i. (
        record g {
          post_assert = post_assert.0 i;
          payout_optimistic = optimistic.0 i;
          payout = payout.0 i;
          slash_stake = pairs.0 i;
        },
        record h {
          post_assert = post_assert.1 i;
          payout_optimistic = optimistic.1 i;
          payout = payout.1 i;
          slash_stake = pairs.1 i;
        },
      )
