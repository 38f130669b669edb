-- ===== src/Contract/KeyOrder.antt =====
-- Values in the order of the bitcoin keys of an operator table (the `filter_map`s of
-- process_root_nonce and process_root_signature of crates/duty-tracker/src/contract_state_machine.rs).
use strata_bridge.Prelude.{
  ℕ, zero, suc, none, some, [], ◌∷◌, ◌≡◌, ◌≢◌, inl, inr, refl, arith, map, Option-cases, length,
  get_elem?, contains,
}
use strata_bridge.Prelude.BTreeMap.{
  BTreeMap, get, values, keys, contains_key, Above, Above-get-none,
}
use strata_bridge.Operators.{OperatorTable, btc_key_to_p2p_key}
use strata_bridge.Contract.Root.{in_key_order}

-- Where each operator of a part of the table has sent something, what was sent stands in the order of
-- the bitcoin keys.
module _ (table : OperatorTable) (sent : BTreeMap ℕ) where
  abbrev pub HasSent : BTreeMap (ℕ × ℕ) → Type 0
  HasSent m =
      (idx p2p btc : ℕ)
      → get idx m ≡ some (p2p, btc)
      → (btc_key_to_p2p_key table btc ≡ some p2p) × (get p2p sent ≢ none)

  HasSent-tail :
      (k : ℕ) (v : ℕ × ℕ) (m : BTreeMap (ℕ × ℕ))
      → Above (suc k) m
      → HasSent ((k, v) ∷ m)
      → HasSent m
  unfolding get
  HasSent-tail k v m s h =
      λ idx p2p btc at. h idx p2p btc (ground (arith, Above-get-none (suc k) idx m s))

  in_key_order-cons :
      (k p2p btc : ℕ) (m : BTreeMap (ℕ × ℕ))
      → HasSent ((k, (p2p, btc)) ∷ m)
      → (value : ℕ) × (get p2p sent ≡ some value)
        × (btc_key_to_p2p_key table btc ≡ some p2p)
        × (in_key_order table sent (btc ∷ map (λ (x : ℕ × ℕ). x.1) (values m))
            ≡ value ∷ in_key_order table sent (map (λ (x : ℕ × ℕ). x.1) (values m)))
  unfolding in_key_order get
  in_key_order-cons k p2p btc m h =
      let (known, there) = h k p2p btc (ground arith) in
      elim (Option-cases (get p2p sent)) [
        | inl e ↦ absurd (there e)
        | inr (value, e) ↦ (value, e, known, ground arith)
      ]

  pub length-in_key_order :
      (m : BTreeMap (ℕ × ℕ)) (lo : ℕ)
      → Above lo m
      → HasSent m
      → length (in_key_order table sent (map (λ (x : ℕ × ℕ). x.1) (values m))) ≡ length m
  unfolding in_key_order
  length-in_key_order [] lo s h = refl
  length-in_key_order ((k, (p2p, btc)) ∷ m) lo s h =
      let (value, e, known, step) = in_key_order-cons k p2p btc m h in
      ground (arith, step, length-in_key_order m (suc k) s.1 (HasSent-tail k (p2p, btc) m s.1 h))

  pub get_elem?-in_key_order :
      (m : BTreeMap (ℕ × ℕ)) (lo i btc p2p : ℕ)
      → Above lo m
      → HasSent m
      → get_elem? (map (λ (x : ℕ × ℕ). x.1) (values m)) i ≡ some btc
      → btc_key_to_p2p_key table btc ≡ some p2p
      → get_elem? (in_key_order table sent (map (λ (x : ℕ × ℕ). x.1) (values m))) i ≡ get p2p sent
  get_elem?-in_key_order [] lo i btc p2p s h at known = cc
  get_elem?-in_key_order ((k, (p, b)) ∷ m) lo zero btc p2p s h at known =
      let (value, e, known', step) = in_key_order-cons k p b m h in ground (arith, step)
  get_elem?-in_key_order ((k, (p, b)) ∷ m) lo (suc i) btc p2p s h at known =
      let (value, e, known', step) = in_key_order-cons k p b m h in
      ground (
        arith,
        step,
        get_elem?-in_key_order m (suc k) i btc p2p s.1 (HasSent-tail k (p, b) m s.1 h),
      )

pub contains-keys {ℓ} :
    {V : Type ℓ} (m : BTreeMap V) (k : ℕ) → contains (keys m) k ≡ contains_key k m
unfolding contains_key get
contains-keys [] k = refl
contains-keys ((j, v) ∷ m) k = ground (arith, contains-keys m k)
