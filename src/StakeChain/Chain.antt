-- ===== src/StakeChain/Chain.antt =====
-- The stake chain as a sequence of transactions (crates/stake-chain/src/stake_chain.rs): the
-- transaction at an index, each made from the one before it, and the vector that `new` builds.
use strata_bridge.Prelude.{
  ℕ, zero, suc, ◌+◌, ◌-◌, ◌≤◌, ◌<◌, Option, none, some, [], ◌∷◌, ◌≡◌, ◌≢◌, refl, sym, ◌∙◌, arith,
  inl, inr, Option-cases, get_elem?, length,
}
use strata_bridge.Prelude.BTreeMap.{
  BTreeMap, get, insert, Above, IsSorted, Above-get-none, get-insert,
}
use strata_bridge.Bitcoin.{TxIn}
use strata_bridge.StakeChain.{
  StakeTxData, StakeChainInputs, StakeChainParams, Connectors, StakeTx, StakeChain, advance,
  new_tail, advance_all, first_stake, new, new_head, txid_of, stake_vout,
}
use mathlib.Core.Option
use mathlib.Core.Path.{subst}
use native.Mathlib.Decide.{dec_le}

module _ (c : Connectors) (params : StakeChainParams) where
  unfoldable pub stake_at : StakeChainInputs → ℕ → Option StakeTx
  unfolding advance
  stake_at inputs zero = Option.map (first_stake c params inputs) (get 0 inputs.stake_inputs)
  stake_at inputs (suc n) = elim (stake_at inputs n) [
    | none ↦ none
    | some prev ↦ Option.map (advance c params prev) (get (suc n) inputs.stake_inputs)
  ]

  -- The transaction at an index of a chain that is built.
  abbrev pub chain_at : StakeChain → ℕ → Option StakeTx
  chain_at chain zero = chain.head
  chain_at chain (suc n) = elim chain.head [ none ↦ none | some first ↦ get_elem? chain.tail n ]

  stake_at-none :
      (inputs : StakeChainInputs) (n k : ℕ)
      → n ≤ k
      → stake_at inputs n ≡ none
      → stake_at inputs k ≡ none
  unfolding stake_at
  stake_at-none inputs n zero le h =
      let e : n ≡ 0 = omega arith in subst (λ m. stake_at inputs m ≡ none) e h
  stake_at-none inputs n (suc k) le h = elim (dec_le n k) [
    | yes before ↦ rw (stake_at-none inputs n k before h) refl
    | no after ↦ let e : n ≡ suc k = omega arith in subst (λ m. stake_at inputs m ≡ none) e h
  ]

  -- An index with a transaction has an input, whose hash the transaction has.
  pub stake_at-input :
      (inputs : StakeChainInputs) (n : ℕ) (tx : StakeTx)
      → stake_at inputs n ≡ some tx
      → (input : StakeTxData) × (get n inputs.stake_inputs ≡ some input) × (tx.hash ≡ input.hash)
  unfolding stake_at new_head advance
  stake_at-input inputs zero tx h = elim (Option-cases (get 0 inputs.stake_inputs)) [
    | inl e ↦ absurd (ground arith)
    | inr (input, e) ↦ (input, e, ground arith)
  ]
  stake_at-input inputs (suc n) tx h = elim (Option-cases (get (suc n) inputs.stake_inputs)) [
    | inl e ↦ absurd (ground arith)
    | inr (input, e) ↦ (input, e, ground arith)
  ]

  pub stake_at-pred :
      (inputs : StakeChainInputs) (n : ℕ)
      → stake_at inputs (suc n) ≢ none
      → stake_at inputs n ≢ none
  unfolding stake_at
  stake_at-pred inputs n h = λ absent. h (rw absent refl)

  -- Keys that follow each other take as many places.
  length_of_consecutive :
      (m : BTreeMap StakeTxData) (lo n : ℕ)
      → Above lo m
      → ((i : ℕ) → i ≤ n → get (i + lo) m ≢ none)
      → n < length m
  unfolding get
  length_of_consecutive [] lo n s h = absurd (h 0 (omega arith) refl)
  length_of_consecutive ((k, v) ∷ m) lo zero s h = omega arith
  length_of_consecutive ((k, v) ∷ m) lo (suc n) s h = ground (
    arith,
    s.0,
    h 0 (omega arith),
    Above-get-none (suc k) lo m s.1,
    length_of_consecutive m (suc k) n s.1 (λ i le.
        ground (arith, s.0, h 0 (omega arith), Above-get-none (suc k) lo m s.1, h (suc i))),
  )

  advance_all_beyond :
      (m : BTreeMap StakeTxData) (rounds index i : ℕ) (last : StakeTx)
      → rounds ≤ i
      → get_elem? (advance_all c params m rounds index last) i ≡ none
  unfolding advance_all
  advance_all_beyond m zero index i last h = refl
  advance_all_beyond m (suc rounds) index zero last h = absurd (omega arith)
  advance_all_beyond m (suc rounds) index (suc i) last h = elim (Option-cases (get index m)) [
    | inl e ↦ ground arith
    | inr (input, e) ↦
        ground (arith, advance_all_beyond m rounds (suc index) i (advance c params last input))
  ]

  -- The loop after the transaction at `k` makes those at the indices that follow.
  advance_all-stake_at :
      (inputs : StakeChainInputs) (rounds k i n : ℕ) (last : StakeTx)
      → stake_at inputs k ≡ some last
      → i < rounds
      → n ≡ i + suc k
      → get_elem? (advance_all c params inputs.stake_inputs rounds (suc k) last) i
        ≡ stake_at inputs n
  unfolding advance_all stake_at
  advance_all-stake_at inputs zero k i n last at h e = absurd (omega arith)
  advance_all-stake_at inputs (suc rounds) k zero n last at h e =
      let e' : n ≡ suc k = omega arith in
      rw e' (elim (Option-cases (get (suc k) inputs.stake_inputs)) [
        | inl f ↦ ground arith
        | inr (input, f) ↦ ground arith
      ])
  advance_all-stake_at inputs (suc rounds) k (suc i) n last at h e =
      elim (Option-cases (get (suc k) inputs.stake_inputs)) [
        | inl f ↦ ground (arith, stake_at-none inputs (suc k) n)
        | inr (input, f) ↦
            ground
              (arith, advance_all-stake_at inputs rounds (suc k) i n (advance c params last input))
      ]

  stake_at-get :
      (inputs : StakeChainInputs) (n i : ℕ)
      → stake_at inputs n ≢ none
      → i ≤ n
      → get i inputs.stake_inputs ≢ none
  unfolding stake_at
  stake_at-get inputs zero i h le =
      let e : i ≡ 0 = omega arith in rw e (λ absent. h (rw absent refl))
  stake_at-get inputs (suc n) i h le = elim (dec_le i n) [
    | yes before ↦ stake_at-get inputs n i (stake_at-pred inputs n h) before
    | no after ↦
        let e : i ≡ suc n = omega arith in
        rw e (elim (Option-cases (stake_at inputs n)) [
          | inl f ↦ absurd (ground (arith, h))
          | inr (prev, f) ↦ λ absent. ground (arith, h)
        ])
  ]

  stake_at_beyond :
      (inputs : StakeChainInputs) (n : ℕ)
      → IsSorted inputs.stake_inputs
      → length inputs.stake_inputs ≤ n
      → stake_at inputs n ≡ none
  stake_at_beyond inputs n s le = elim (Option-cases (stake_at inputs n)) [
    | inl e ↦ e
    | inr (tx, e) ↦
        let present : stake_at inputs n ≢ none = λ absent. cc in
        absurd (
          omega (
            arith,
            length_of_consecutive inputs.stake_inputs 0 n s
                (λ i h. stake_at-get inputs n (i + 0) present (omega arith)),
          ))
  ]

  new-stake_at_later :
      (inputs : StakeChainInputs) (n : ℕ) (first second : StakeTxData)
      → IsSorted inputs.stake_inputs
      → get 0 inputs.stake_inputs ≡ some first
      → get 1 inputs.stake_inputs ≡ some second
      → chain_at (new c params inputs) (suc n) ≡ stake_at inputs (suc n)
  unfolding new stake_at
  new-stake_at_later inputs zero first second s e f = ground arith
  new-stake_at_later inputs (suc i) first second s e f =
      let next = advance c params (first_stake c params inputs first) second in
      elim (dec_le (length inputs.stake_inputs) (suc (suc i))) [
        | yes after ↦ ground (
          arith,
          advance_all_beyond inputs.stake_inputs (length inputs.stake_inputs - 2) 2 i next,
          stake_at_beyond inputs (suc (suc i)) s after,
        )
        | no before ↦ ground (
          arith,
          advance_all-stake_at inputs (length inputs.stake_inputs - 2) 1 i (suc (suc i)) next,
        )
      ]

  -- The chain that `new` builds from an operator's inputs has at every index the transaction of the
  -- index: it stops before the first index without an input, whatever inputs come later.
  pub new-stake_at :
      (inputs : StakeChainInputs) (n : ℕ)
      → IsSorted inputs.stake_inputs
      → chain_at (new c params inputs) n ≡ stake_at inputs n
  unfolding new stake_at
  new-stake_at inputs zero s = elim (Option-cases (get 0 inputs.stake_inputs)) [
    | inl e ↦ ground arith
    | inr (first, e) ↦ elim (Option-cases (get 1 inputs.stake_inputs)) [
      | inl f ↦ ground arith
      | inr (second, f) ↦ ground arith
    ]
  ]
  new-stake_at inputs (suc n) s = elim (Option-cases (get 0 inputs.stake_inputs)) [
    | inl e ↦ ground (arith, stake_at-none inputs 0 n)
    | inr (first, e) ↦ elim (Option-cases (get 1 inputs.stake_inputs)) [
      | inl f ↦ ground (arith, stake_at-none inputs 1 (suc n))
      | inr (second, f) ↦ new-stake_at_later inputs n first second s e f
    ]
  ]

  -- An input at a later index does not change the transaction.
  pub stake_at-insert :
      (inputs : StakeChainInputs) (n d : ℕ) (input : StakeTxData)
      → n < d
      → stake_at (record inputs { stake_inputs = insert d input inputs.stake_inputs }) n
        ≡ stake_at inputs n
  unfolding stake_at
  stake_at-insert inputs zero d input h = ground (arith, get-insert d 0 input inputs.stake_inputs)
  stake_at-insert inputs (suc n) d input h =
      ground
        (arith, stake_at-insert inputs n d input, get-insert d (suc n) input inputs.stake_inputs)

  -- Advancing a transaction makes the transaction that is built anew from the hash of the one
  -- before and from the outpoint of its stake.
  pub advance-new_tail :
      (prev : StakeTx) (input : StakeTxData)
      → advance c params prev input
        ≡ new_tail c params input prev.hash
            (record { txid = txid_of c params prev; vout = stake_vout })
  unfolding advance new_tail
  advance-new_tail prev input = refl

  -- A transaction of the chain pays the stake to the operator's key and its own hash.
  stake_at-output :
      (inputs : StakeChainInputs) (pubkey n : ℕ) (tx : StakeTx)
      → ((i : ℕ) (input : StakeTxData)
          → get i inputs.stake_inputs ≡ some input
          → input.operator_pubkey ≡ pubkey)
      → stake_at inputs n ≡ some tx
      → get_elem? tx.unsigned_tx.output stake_vout
        ≡ some (record { value = params.stake_amount; script_pubkey = c.stake pubkey tx.hash })
  unfolding stake_at new_head advance
  stake_at-output inputs pubkey zero tx same h = elim (Option-cases (get 0 inputs.stake_inputs)) [
    | inl e ↦ absurd (ground arith)
    | inr (input, e) ↦ ground (arith, same 0 input e)
  ]
  stake_at-output inputs pubkey (suc n) tx same h =
      elim (Option-cases (get (suc n) inputs.stake_inputs)) [
        | inl e ↦ absurd (ground arith)
        | inr (input, e) ↦ ground (arith, same (suc n) input e)
      ]

  -- The inputs of one operator, in the order of their indices and all with the operator's key: each
  -- later transaction of the chain spends the stake of the one before it, and the output that it is
  -- signed for is the output that this one has.
  pub new_links :
      (inputs : StakeChainInputs) (pubkey n : ℕ) (tx : StakeTx)
      → IsSorted inputs.stake_inputs
      → ((i : ℕ) (input : StakeTxData)
          → get i inputs.stake_inputs ≡ some input
          → input.operator_pubkey ≡ pubkey)
      → chain_at (new c params inputs) (suc n) ≡ some tx
      → (prev : StakeTx) × (chain_at (new c params inputs) n ≡ some prev)
        × (Option.map (λ (i : TxIn). i.previous_output) (get_elem? tx.unsigned_tx.input 1)
            ≡ some (record { txid = txid_of c params prev; vout = stake_vout }))
        × (tx.prev_stake_out ≢ none)
        × (get_elem? prev.unsigned_tx.output stake_vout ≡ tx.prev_stake_out)
  new_links inputs pubkey n tx s same h =
      let at = sym (new-stake_at inputs (suc n) s) ∙ h in
      elim (Option-cases (stake_at inputs n)) [
        | inl e ↦ absurd (unfold stake_at in ground arith)
        | inr (prev, e) ↦ elim (Option-cases (get (suc n) inputs.stake_inputs)) [
          | inl f ↦ absurd (unfold stake_at in ground arith)
          | inr (input, f) ↦
              let made : advance c params prev input ≡ tx = unfold stake_at in ground arith in
              (
                prev,
                new-stake_at inputs n s ∙ e,
                unfold advance in ground arith,
                unfold advance in ground arith,
                unfold advance in
                    ground
                      (arith, stake_at-output inputs pubkey n prev same e, same (suc n) input f),
              )
        ]
      ]
