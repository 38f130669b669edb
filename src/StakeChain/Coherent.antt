-- ===== src/StakeChain/Coherent.antt =====
-- What the cache of stake transaction ids holds, and the exchange that starts a chain
-- (StakeChainSM of crates/duty-tracker/src/stake_chain_state_machine.rs).
use strata_bridge.Prelude.{
  ℕ, zero, suc, ◌≤◌, Option, none, some, [], ◌∷◌, ◌≡◌, ◌≢◌, refl, sym, arith, inl, inr, ◌⊎◌,
  Option-cases, first?, if◌then◌else◌, ◌==◌,
}
use strata_bridge.Prelude.BTreeMap.{
  BTreeMap, get, insert, values, IsSorted, Above-get-none, get-insert,
}
use strata_bridge.Bitcoin.{OutPoint}
use strata_bridge.Operators.{OperatorTable}
use strata_bridge.StakeChain.{StakeTxData, StakeChainInputs, StakeChainParams, Connectors, txid_of}
use strata_bridge.StakeChain.Chain.{stake_at}
use strata_bridge.StakeChain.Machine.{StakeChainSm, new, process_exchange, stake_txid, cache_txid}
use mathlib.Core.Option
use mathlib.Core.Path.{subst}
use native.Mathlib.Decide.{dec_le}

-- The txid of the transaction at an index of an operator's chain.
abbrev pub chain_txid :
    Connectors → StakeChainParams → BTreeMap StakeChainInputs → (op n : ℕ) → Option ℕ
chain_txid c params stake_chains op n = elim (get op stake_chains) [
  | none ↦ none
  | some inputs ↦ Option.map (txid_of c params) (stake_at c params inputs n)
]

-- Each cached txid is that of the transaction at its index of the operator's chain, no index is
-- cached before the one below it, and inputs are in the order of their indices.
pub record IsCoherent (c : Connectors) (sm : StakeChainSm) : Type 0 where
  pub cached :
      (op n txid : ℕ)
      → stake_txid sm op n ≡ some txid
      → chain_txid c sm.params sm.stake_chains op n ≡ some txid
  pub below : (op n : ℕ) → stake_txid sm op (suc n) ≢ none → stake_txid sm op n ≢ none
  pub sorted :
      (op : ℕ) (inputs : StakeChainInputs)
      → get op sm.stake_chains ≡ some inputs
      → IsSorted inputs.stake_inputs

pub new-IsCoherent :
    (c : Connectors) (network : ℕ) (table : OperatorTable) (params : StakeChainParams)
    → IsCoherent c (new network table params)
unfolding new get
new-IsCoherent c network table params = record {
  cached = λ op n txid h. cc;
  below = λ op n h. absurd (h refl);
  sorted = λ op inputs h. cc;
}

pub stake_txid-cache_txid :
    (op index txid o n : ℕ) (m : BTreeMap (BTreeMap ℕ))
    → (elim (get o (cache_txid op index txid m)) [ none ↦ none | some txids ↦ get n txids ]) ≡ (
        if op == o
        then if index == n
          then some txid
          else (elim (get o m) [ none ↦ none | some txids ↦ get n txids ])
        else (elim (get o m) [ none ↦ none | some txids ↦ get n txids ]))
unfolding cache_txid get
stake_txid-cache_txid op index txid o n m = elim (Option-cases (get op m)) [
  | inl e ↦ ground (arith, get-insert op o (insert index txid []) m, get-insert index n txid [])
  | inr (txids, e) ↦
      ground (arith, get-insert op o (insert index txid txids) m, get-insert index n txid txids)
]

pub first-values_of_get :
    (m : BTreeMap StakeTxData) (input : StakeTxData)
    → IsSorted m
    → get 0 m ≡ some input
    → first? (values m) ≡ some input
unfolding get
first-values_of_get [] input s h = cc
first-values_of_get ((k, v) ∷ m) input s h = ground (arith, Above-get-none (suc k) 0 m s.1)

-- The indices that are cached lie below an index that is not.
pub below_of_absent :
    (c : Connectors) (sm : StakeChainSm)
    → IsCoherent c sm
    → (op n k : ℕ) → stake_txid sm op n ≡ none
    → n ≤ k
    → stake_txid sm op k ≡ none
below_of_absent c sm w op n zero h le =
    let e : n ≡ 0 = omega arith in subst (λ m. stake_txid sm op m ≡ none) e h
below_of_absent c sm w op n (suc k) h le = elim (dec_le n k) [
  | no after ↦ let e : n ≡ suc k = omega arith in subst (λ m. stake_txid sm op m ≡ none) e h
  | yes before ↦ elim (Option-cases (stake_txid sm op (suc k))) [
    | inl absent ↦ absent
    | inr (txid, e) ↦ absurd (w.below op k (λ absent. cc) (below_of_absent c sm w op n k h before))
  ]
]

get-process_exchange :
    (op o : ℕ) (outpoint : OutPoint) (sm : StakeChainSm) (inputs : StakeChainInputs)
    → get o (process_exchange op outpoint sm).stake_chains ≡ some inputs
    → (get o sm.stake_chains ≡ some inputs)
      ⊎ ((get o sm.stake_chains ≡ none) × (inputs.stake_inputs ≡ []))
unfolding process_exchange
get-process_exchange op o outpoint sm inputs h =
    let fresh : StakeChainInputs = record { stake_inputs = []; pre_stake_outpoint = outpoint } in
    elim (Option-cases (get op sm.stake_chains)) [
      | inl e ↦ ground (arith, get-insert op o fresh sm.stake_chains)
      | inr (old, e) ↦ ground (
        arith,
        get-insert op o fresh sm.stake_chains,
        get-insert op o old (insert op fresh sm.stake_chains),
      )
    ]

process_exchange-get :
    (op o : ℕ) (outpoint : OutPoint) (sm : StakeChainSm) (inputs : StakeChainInputs)
    → get o sm.stake_chains ≡ some inputs
    → get o (process_exchange op outpoint sm).stake_chains ≡ some inputs
unfolding process_exchange
process_exchange-get op o outpoint sm inputs h =
    let fresh : StakeChainInputs = record { stake_inputs = []; pre_stake_outpoint = outpoint } in
    elim (Option-cases (get op sm.stake_chains)) [
      | inl e ↦ ground (arith, get-insert op o fresh sm.stake_chains)
      | inr (old, e) ↦ ground (
        arith,
        get-insert op o fresh sm.stake_chains,
        get-insert op o old (insert op fresh sm.stake_chains),
      )
    ]

process_exchange_frame :
    (op : ℕ) (outpoint : OutPoint) (sm : StakeChainSm)
    → ((process_exchange op outpoint sm).stake_txids ≡ sm.stake_txids)
      × ((process_exchange op outpoint sm).params ≡ sm.params)
unfolding process_exchange
process_exchange_frame op outpoint sm = ground arith

chain_txid-get :
    (c : Connectors) (params : StakeChainParams) (m m' : BTreeMap StakeChainInputs) (op n txid : ℕ)
    → ((inputs : StakeChainInputs) → get op m ≡ some inputs → get op m' ≡ some inputs)
    → chain_txid c params m op n ≡ some txid
    → chain_txid c params m' op n ≡ some txid
chain_txid-get c params m m' op n txid keep h = elim (Option-cases (get op m)) [
  | inl e ↦ absurd (ground arith)
  | inr (inputs, e) ↦ ground (arith, keep inputs)
]

pub process_exchange-IsCoherent :
    (c : Connectors) (op : ℕ) (outpoint : OutPoint) (sm : StakeChainSm)
    → IsCoherent c sm
    → IsCoherent c (process_exchange op outpoint sm)
process_exchange-IsCoherent c op outpoint sm w =
    let (txids, params) = process_exchange_frame op outpoint sm in
    record {
      cached = λ o n txid h. rw params (
          chain_txid-get c sm.params sm.stake_chains (process_exchange op outpoint sm).stake_chains
            o n txid (process_exchange-get op o outpoint sm)
            (w.cached o n txid (rw (sym txids) h)));
      below = λ o n. rw txids (w.below o n);
      sorted = λ o inputs h. elim (get-process_exchange op o outpoint sm inputs h) [
        | inl old ↦ w.sorted o inputs old
        | inr (fresh, e) ↦ rw e tt
      ];
    }
