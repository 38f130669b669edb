-- ===== src/StakeChain/Restore.antt =====
-- The machine that a restart builds from the stored inputs (StakeChainSM::restore of
-- crates/duty-tracker/src/stake_chain_state_machine.rs).
use strata_bridge.Prelude.{
  ℕ, zero, suc, ◌+◌, ◌<◌, none, some, List, [], ◌∷◌, map, ◌≡◌, ◌≢◌, refl, ◌∙◌, arith, inl, inr,
  Option-cases, get_elem?, true,
}
use strata_bridge.Prelude.BTreeMap.{BTreeMap, get, keys, contains_key, Above, IsSorted}
use strata_bridge.Prelude.Collect.{IsOnce, get-collect}
use mathlib.Core.Option
use strata_bridge.Operators.{OperatorTable, p2p_keys}
use strata_bridge.StakeChain.{
  StakeChainInputs, StakeChainParams, Connectors, StakeTx, StakeChain, txid_of, new as new_chain,
}
use strata_bridge.StakeChain.Chain.{chain_at, new-stake_at}
use strata_bridge.StakeChain.Machine.{
  stake_txid, new, restore, chain_txids, indexed, known_inputs, zip_keys,
}
use strata_bridge.StakeChain.Coherent.{chain_txid}
use strata_bridge.StakeChain.Setup.{Message, run, run-new-IsCoherent}

module _ (c : Connectors) (params : StakeChainParams) where
  get-indexed_before : (k n : ℕ) (txs : List StakeTx) → n < k → get n (indexed c k txs) ≡ none
  unfolding get
  get-indexed_before k n [] h = refl
  get-indexed_before k n (tx ∷ txs) h = ground (arith, get-indexed_before (suc k) n txs)

  indexed-IsOnce : (k : ℕ) (txs : List StakeTx) → IsOnce (indexed c k txs)
  indexed-IsOnce k [] = tt
  indexed-IsOnce k (tx ∷ txs) =
      (get-indexed_before (suc k) k txs (omega arith), indexed-IsOnce (suc k) txs)

  get-indexed :
      (k i n : ℕ) (txs : List StakeTx)
      → n ≡ i + k
      → get n (indexed c k txs) ≡ Option.map (txid_of c params) (get_elem? txs i)
  unfolding get
  get-indexed k i n [] h = refl
  get-indexed k zero n (tx ∷ txs) h = ground arith
  get-indexed k (suc i) n (tx ∷ txs) h = ground (arith, get-indexed (suc k) i n txs)

  chain_txids_entries :
      (chain : StakeChain) (first : StakeTx) (n : ℕ)
      → chain.head ≡ some first
      → get n (chain_txids c chain) ≡ get n ((0, txid_of c params first) ∷ indexed c 1 chain.tail)
  unfolding chain_txids
  chain_txids_entries chain first n e = rw e (
      get-collect ((0, txid_of c params first) ∷ indexed c 1 chain.tail) n
        (get-indexed_before 1 0 chain.tail (omega arith), indexed-IsOnce 1 chain.tail))

  -- The txids of a chain, at each index.
  get-chain_txids :
      (chain : StakeChain) (n : ℕ)
      → get n (chain_txids c chain) ≡ Option.map (txid_of c params) (chain_at c params chain n)
  unfolding chain_txids get
  get-chain_txids chain zero = elim (Option-cases chain.head) [
    | inl e ↦ ground arith
    | inr (first, e) ↦ ground (arith, chain_txids_entries chain first 0)
  ]
  get-chain_txids chain (suc n) = elim (Option-cases chain.head) [
    | inl e ↦ ground arith
    | inr (first, e) ↦
        ground (arith, chain_txids_entries chain first (suc n), get-indexed 1 n (suc n) chain.tail)
  ]

module _ {ℓ} {A : Type ℓ} where
  get-zip_keys_before :
      (as' : List A) {V : Type 0} (m : BTreeMap V) (lo k : ℕ)
      → Above lo m
      → k < lo
      → get k (zip_keys as' (keys m)) ≡ none
  unfolding get
  get-zip_keys_before [] m lo k s h = refl
  get-zip_keys_before (a ∷ as') [] lo k s h = refl
  get-zip_keys_before (a ∷ as') ((j, v) ∷ m) lo k s h =
      ground (arith, s.0, get-zip_keys_before as' m (suc j) k s.1)

  zip_keys-IsOnce :
      (as' : List A) {V : Type 0} (m : BTreeMap V) (lo : ℕ)
      → Above lo m
      → IsOnce (zip_keys as' (keys m))
  zip_keys-IsOnce [] m lo s = tt
  zip_keys-IsOnce (a ∷ as') [] lo s = tt
  zip_keys-IsOnce (a ∷ as') ((j, v) ∷ m) lo s =
      (get-zip_keys_before as' m (suc j) j s.1 (omega arith), zip_keys-IsOnce as' m (suc j) s.1)

  -- Where every key has inputs, each key meets what is made of its own.
  get-zip_keys_own :
      (f : StakeChainInputs → A) (stake_chains : BTreeMap StakeChainInputs) {V : Type 0}
      (m : BTreeMap V) (k : ℕ) (inputs : StakeChainInputs)
      → ((j : ℕ) → contains_key j m ≡ true → get j stake_chains ≢ none)
      → contains_key k m ≡ true
      → get k stake_chains ≡ some inputs
      → get k (zip_keys (map f (known_inputs stake_chains (keys m))) (keys m)) ≡ some (f inputs)
  unfolding get contains_key
  get-zip_keys_own f stake_chains [] k inputs known has at = ground arith
  get-zip_keys_own f stake_chains ((j, v) ∷ m) k inputs known has at =
      elim (Option-cases (get j stake_chains)) [
        | inl e ↦ absurd (ground (arith, known j))
        | inr (own, e) ↦
            ground
              (arith, get-zip_keys_own f stake_chains m k inputs (λ i h. known i (ground arith)))
      ]

-- The txids that are restored for an operator where every operator of the table has inputs.
get-restore :
    (c : Connectors) (network : ℕ) (table : OperatorTable) (params : StakeChainParams)
    (stake_chains : BTreeMap StakeChainInputs) (op n : ℕ) (inputs : StakeChainInputs)
    → IsSorted table.p2p_key
    → ((j : ℕ) → contains_key j table.p2p_key ≡ true → get j stake_chains ≢ none)
    → contains_key op table.p2p_key ≡ true
    → get op stake_chains ≡ some inputs
    → IsSorted inputs.stake_inputs
    → stake_txid (restore c network table params stake_chains) op n
      ≡ chain_txid c params stake_chains op n
unfolding restore
get-restore c network table params stake_chains op n inputs s known has at s' = ground (
  arith,
  get-collect
      (zip_keys
        (map (λ (i : StakeChainInputs). chain_txids c (new_chain c params i))
          (known_inputs stake_chains (p2p_keys table)))
        (p2p_keys table))
      op
      (zip_keys-IsOnce
        (map (λ (i : StakeChainInputs). chain_txids c (new_chain c params i))
          (known_inputs stake_chains (p2p_keys table)))
        table.p2p_key 0 s),
  get-zip_keys_own (λ (i : StakeChainInputs). chain_txids c (new_chain c params i)) stake_chains
      table.p2p_key op inputs known has at,
  get-chain_txids c params (new_chain c params inputs) n,
  new-stake_at c params inputs n s',
)

-- After any exchanges and setups, in any order, each operator of the table having exchanged: a
-- restart from the stored inputs knows every stake transaction of an operator of the table that the
-- running machine knew, by the same txid.
pub run-restore :
    (c : Connectors) (network : ℕ) (table : OperatorTable) (params : StakeChainParams)
    (messages : List Message) (op n txid : ℕ)
    → let sm = run c messages (new network table params) in
      IsSorted sm.operator_table.p2p_key
      → ((j : ℕ) → contains_key j sm.operator_table.p2p_key ≡ true → get j sm.stake_chains ≢ none)
      → contains_key op sm.operator_table.p2p_key ≡ true
      → stake_txid sm op n ≡ some txid
      → stake_txid (restore c sm.network sm.operator_table sm.params sm.stake_chains) op n
        ≡ some txid
run-restore c network table params messages op n txid s known has h =
    let sm = run c messages (new network table params) in
    let w = run-new-IsCoherent c network table params messages in
    elim (Option-cases (get op sm.stake_chains)) [
      | inl e ↦ absurd (known op has e)
      | inr (inputs, e) ↦
          get-restore c sm.network sm.operator_table sm.params sm.stake_chains op n inputs s known
            has e (w.sorted op inputs e)
          ∙ w.cached op n txid h
    ]

-- The first operator of the table has no inputs and the second one has: a restart takes the stake
-- transactions of the second operator for those of the first.
pub restore_shifted :
    (c : Connectors) (network pov : ℕ) (params : StakeChainParams)
    (stake_chains : BTreeMap StakeChainInputs) (first second : ℕ × (ℕ × ℕ))
    (operators idx_key btc_key : BTreeMap (ℕ × ℕ)) (inputs : StakeChainInputs) (n : ℕ)
    → let table : OperatorTable = record {
      pov = pov;
      idx_key = idx_key;
      p2p_key = first ∷ second ∷ operators;
      btc_key = btc_key;
    } in
      IsSorted table.p2p_key
      → get first.0 stake_chains ≡ none
      → get second.0 stake_chains ≡ some inputs
      → IsSorted inputs.stake_inputs
      → stake_txid (restore c network table params stake_chains) first.0 n
        ≡ chain_txid c params stake_chains second.0 n
unfolding restore get
restore_shifted c network pov params stake_chains (a, x) (b, y) operators idx_key btc_key inputs n s
      no_inputs at s' =
    let rest =
      map (λ (i : StakeChainInputs). chain_txids c (new_chain c params i))
        (known_inputs stake_chains (a ∷ b ∷ keys operators)) in
    ground (
      arith,
      get-collect (zip_keys rest (a ∷ b ∷ keys operators)) a
          (zip_keys-IsOnce rest ((a, x) ∷ (b, y) ∷ operators) 0 s),
      get-chain_txids c params (new_chain c params inputs) n,
      new-stake_at c params inputs n s',
    )
