-- ===== src/PogMusig/Examples.antt =====
-- The theorems on graph data at concrete data: the numbers of the places, one slash-stake pair.
use strata_bridge.Prelude.{ℕ, some, [], ◌∷◌, ◌≡◌, refl, length}
use strata_bridge.Prelude.Array.{from_const}
use strata_bridge.PogMusig.{
  PogMusigF, pack, unpack, zip, unzip, flatten_pairs, num_assert_data_tx,
  num_payout_optimistic_inputs, num_payout_inputs,
}
use strata_bridge.PogMusig.Wire.{unpack-pack, pack-unpack, unpack_total}
use strata_bridge.PogMusig.Laws.{unzip-zip}

abbrev numbers : PogMusigF ℕ
numbers = record {
  challenge = 1;
  pre_assert = 2;
  post_assert = from_const num_assert_data_tx 3;
  payout_optimistic = from_const num_payout_optimistic_inputs 4;
  payout = from_const num_payout_inputs 5;
  disprove = 6;
  slash_stake = (7, 8) ∷ [];
}

unpack-pack_example : unpack (pack numbers) ≡ some numbers
unpack-pack_example = unpack-pack numbers

pack-unpack_example : pack numbers ≡ pack numbers
pack-unpack_example = pack-unpack (pack numbers) numbers (unpack-pack numbers)

unpack_total_example :
    (g : PogMusigF ℕ) × (unpack (pack numbers) ≡ some g) × (length g.slash_stake ≡ 1)
unfolding pack flatten_pairs
unpack_total_example = unpack_total 1 (pack numbers) refl

unzip-zip_example : unzip (zip numbers numbers) ≡ (numbers, numbers)
unzip-zip_example = unzip-zip numbers numbers refl
