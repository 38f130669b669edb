-- ===== src/Operators.antt =====
-- The operator table (crates/primitives/src/operator_table.rs). Its child Consistent proves that
-- the three maps of a table agree.
pub mod Consistent
mod Examples
use strata_bridge.Prelude.{
  ℕ, ◌+◌, Bool, true, false, ◌||◌, Option, none, some, List, [], ◌∷◌, map, if◌then◌else◌, ◌==◌,
  length, Result, ok, err,
}
use strata_bridge.Prelude.BTreeMap.{BTreeMap, get, insert, contains_key, keys, values}
use mathlib.Core.Option

-- An operator's index, its p2p key and its bitcoin key.
pub record OperatorTableEntry : Type 0 where
  pub idx : ℕ
  pub p2p : ℕ
  pub btc : ℕ

pub record OperatorTable : Type 0 where
  pub pov : ℕ
  pub idx_key : BTreeMap (ℕ × ℕ)
  pub p2p_key : BTreeMap (ℕ × ℕ)
  pub btc_key : BTreeMap (ℕ × ℕ)

-- `entries.iter().find(is_us)`.
unfoldable pub find :
    (OperatorTableEntry → Bool) → List OperatorTableEntry → Option OperatorTableEntry
find is_us [] = none
find is_us (e ∷ entries) = if is_us e then some e else find is_us entries

unfoldable pub add_entry : OperatorTable → OperatorTableEntry → OperatorTable
add_entry t e = record t {
  idx_key = insert e.idx (e.p2p, e.btc) t.idx_key;
  p2p_key = insert e.p2p (e.idx, e.btc) t.p2p_key;
  btc_key = insert e.btc (e.idx, e.p2p) t.btc_key;
}

-- Does one of the three `insert`s replace a value?
abbrev pub clashes : OperatorTable → OperatorTableEntry → Bool
clashes t e =
    contains_key e.idx t.idx_key || contains_key e.p2p t.p2p_key || contains_key e.btc t.btc_key

-- The loop of `new`.
unfoldable pub add_entries : OperatorTable → List OperatorTableEntry → Option OperatorTable
unfolding add_entry
add_entries t [] = some t
add_entries t (e ∷ entries) =
    let rest = add_entries (add_entry t e) entries in if clashes t e then none else rest

unfoldable pub new : List OperatorTableEntry → (OperatorTableEntry → Bool) → Option OperatorTable
unfolding find add_entries
new entries is_us = elim (find is_us entries) [
  | none ↦ none
  | some us ↦
      add_entries (record { pov = us.idx; idx_key = []; p2p_key = []; btc_key = [] }) entries
]

abbrev pub idx_to_p2p_key : OperatorTable → ℕ → Option ℕ
idx_to_p2p_key t idx = Option.map (λ x. x.0) (get idx t.idx_key)

abbrev pub idx_to_btc_key : OperatorTable → ℕ → Option ℕ
idx_to_btc_key t idx = Option.map (λ x. x.1) (get idx t.idx_key)

abbrev pub p2p_key_to_idx : OperatorTable → ℕ → Option ℕ
p2p_key_to_idx t op_key = Option.map (λ x. x.0) (get op_key t.p2p_key)

abbrev pub p2p_key_to_btc_key : OperatorTable → ℕ → Option ℕ
p2p_key_to_btc_key t op_key = Option.map (λ x. x.1) (get op_key t.p2p_key)

abbrev pub btc_key_to_idx : OperatorTable → ℕ → Option ℕ
btc_key_to_idx t btc_key = Option.map (λ x. x.0) (get btc_key t.btc_key)

abbrev pub btc_key_to_p2p_key : OperatorTable → ℕ → Option ℕ
btc_key_to_p2p_key t btc_key = Option.map (λ x. x.1) (get btc_key t.btc_key)

abbrev pub pov_idx : OperatorTable → ℕ
pov_idx t = t.pov

-- The lookups that the source unwraps; `none` is the panic.
abbrev pub pov_p2p_key : OperatorTable → Option ℕ
pov_p2p_key t = Option.map (λ x. x.0) (get t.pov t.idx_key)

abbrev pub pov_btc_key : OperatorTable → Option ℕ
pov_btc_key t = Option.map (λ x. x.1) (get t.pov t.idx_key)

abbrev pub cardinality : OperatorTable → ℕ
cardinality t = length t.idx_key

abbrev pub btc_keys : OperatorTable → List ℕ
btc_keys t = map (λ x. x.1) (values t.idx_key)

abbrev pub p2p_keys : OperatorTable → List ℕ
p2p_keys t = keys t.p2p_key

abbrev pub operator_idxs : OperatorTable → List ℕ
operator_idxs t = keys t.idx_key

abbrev pub public_key_table : OperatorTable → BTreeMap ℕ
public_key_table t = map (λ e. (e.0, e.1.1)) t.idx_key

-- The six `convert_map` functions: each key is translated, and the first that has no translation is
-- the error.
unfoldable pub convert_from {ℓ} :
    {V : Type ℓ} → (ℕ → Option ℕ) → BTreeMap V → List (ℕ × V) → Result (BTreeMap V) ℕ
convert_from translate done [] = ok done
convert_from translate done ((key, v) ∷ m) = elim (translate key) [
  | none ↦ err key
  | some key' ↦ convert_from translate (insert key' v done) m
]

abbrev pub convert_map_p2p_to_btc {ℓ} :
    {V : Type ℓ} → OperatorTable → BTreeMap V → Result (BTreeMap V) ℕ
convert_map_p2p_to_btc t m = convert_from (p2p_key_to_btc_key t) [] m

abbrev pub convert_map_btc_to_p2p {ℓ} :
    {V : Type ℓ} → OperatorTable → BTreeMap V → Result (BTreeMap V) ℕ
convert_map_btc_to_p2p t m = convert_from (btc_key_to_p2p_key t) [] m

abbrev pub convert_map_p2p_to_idx {ℓ} :
    {V : Type ℓ} → OperatorTable → BTreeMap V → Result (BTreeMap V) ℕ
convert_map_p2p_to_idx t m = convert_from (p2p_key_to_idx t) [] m

abbrev pub convert_map_idx_to_p2p {ℓ} :
    {V : Type ℓ} → OperatorTable → BTreeMap V → Result (BTreeMap V) ℕ
convert_map_idx_to_p2p t m = convert_from (idx_to_p2p_key t) [] m

abbrev pub convert_map_btc_to_idx {ℓ} :
    {V : Type ℓ} → OperatorTable → BTreeMap V → Result (BTreeMap V) ℕ
convert_map_btc_to_idx t m = convert_from (btc_key_to_idx t) [] m

abbrev pub convert_map_idx_to_btc {ℓ} :
    {V : Type ℓ} → OperatorTable → BTreeMap V → Result (BTreeMap V) ℕ
convert_map_idx_to_btc t m = convert_from (idx_to_btc_key t) [] m

abbrev pub select_idx : ℕ → OperatorTableEntry → Bool
select_idx idx e = e.idx == idx

abbrev pub select_p2p : ℕ → OperatorTableEntry → Bool
select_p2p op e = e.p2p == op

abbrev pub select_btc : ℕ → OperatorTableEntry → Bool
select_btc btc e = e.btc == btc
