-- ===== src/StakeChain/Cache.antt =====
-- What the cache of stake transaction ids holds (StakeChainSM of
-- crates/duty-tracker/src/stake_chain_state_machine.rs): the messages in any order.
use strata_bridge.Prelude.{
  ℕ, zero, suc, none, some, ◌≡◌, ◌≢◌, arith, inl, inr, Option-cases, Bool-cases, ◌==◌, ok,
}
use strata_bridge.Prelude.BTreeMap.{get, insert, IsSorted, get-insert, insert-IsSorted}
use strata_bridge.StakeChain.{
  StakeTxData, StakeChainInputs, Connectors, StakeTx, StakeTxKind, advance, new_tail, first_stake,
  txid_of, stake_vout, kind_txid, head, tail,
}
use strata_bridge.StakeChain.Chain.{stake_at, stake_at-input, stake_at-insert, advance-new_tail}
use strata_bridge.StakeChain.Machine.{
  StakeChainSm, stake_txid, stake_tx, first_stake_tx, later_stake_tx, cache_txid,
}
use mathlib.Core.Path.{subst}
use native.Mathlib.Decide.{dec_le}
use strata_bridge.StakeChain.Coherent.{
  chain_txid, IsCoherent, stake_txid-cache_txid, first-values_of_get, below_of_absent,
}

-- The machine with one more input of an operator.
abbrev pub grow : (op d : ℕ) → StakeTxData → StakeChainInputs → StakeChainSm → StakeChainSm
grow op d input inputs sm = record sm {
  stake_chains =
      insert op (record inputs { stake_inputs = insert d input inputs.stake_inputs })
        sm.stake_chains;
}

pub grow-IsCoherent :
    (c : Connectors) (op d : ℕ) (input : StakeTxData) (inputs : StakeChainInputs)
    (sm : StakeChainSm)
    → IsCoherent c sm
    → get op sm.stake_chains ≡ some inputs
    → stake_txid sm op d ≡ none
    → IsCoherent c (grow op d input inputs sm)
grow-IsCoherent c op d input inputs sm w at absent = record {
  cached = λ o n txid h. elim (Bool-cases (op == o)) [
    | inr other ↦ ground (
      arith,
      w.cached o n txid h,
      get-insert op o (record inputs { stake_inputs = insert d input inputs.stake_inputs })
          sm.stake_chains,
    )
    | inl same ↦ elim (dec_le d n) [
      | yes after ↦ absurd (ground (arith, below_of_absent c sm w op d n absent))
      | no before ↦ ground (
        arith,
        w.cached o n txid h,
        stake_at-insert c sm.params inputs n d input,
        get-insert op o (record inputs { stake_inputs = insert d input inputs.stake_inputs })
            sm.stake_chains,
      )
    ]
  ];
  below = w.below;
  sorted = λ o inputs' h. elim (Bool-cases (op == o)) [
    | inr other ↦ w.sorted o inputs' (
        ground (
          arith,
          get-insert op o (record inputs { stake_inputs = insert d input inputs.stake_inputs })
              sm.stake_chains,
        ))
    | inl same ↦
        let e : record inputs { stake_inputs = insert d input inputs.stake_inputs } ≡ inputs' =
          ground (
            arith,
            get-insert op o (record inputs { stake_inputs = insert d input inputs.stake_inputs })
                sm.stake_chains,
          ) in
        subst (λ (i : StakeChainInputs). IsSorted i.stake_inputs) e
          (insert-IsSorted d input inputs.stake_inputs (w.sorted op inputs at))
  ];
}

-- Is the txid below the index cached?
abbrev pub IsNext : StakeChainSm → (op d : ℕ) → Type 0
IsNext sm op zero = Unit {0}
IsNext sm op (suc before) = stake_txid sm op before ≢ none

-- A cached txid with the transaction and the input that it stands for.
cached_tx :
    (c : Connectors) (op n : ℕ) (inputs : StakeChainInputs) (sm : StakeChainSm)
    → IsCoherent c sm
    → get op sm.stake_chains ≡ some inputs
    → stake_txid sm op n ≢ none
    → (prev : StakeTx) × (input : StakeTxData) × (stake_at c sm.params inputs n ≡ some prev)
      × (stake_txid sm op n ≡ some (txid_of c sm.params prev))
      × (get n inputs.stake_inputs ≡ some input)
      × (prev.hash ≡ input.hash)
cached_tx c op n inputs sm w at h = elim (Option-cases (stake_txid sm op n)) [
  | inl e ↦ absurd (h e)
  | inr (txid, e) ↦ elim (Option-cases (stake_at c sm.params inputs n)) [
    | inl f ↦ absurd (ground (arith, w.cached op n txid e))
    | inr (prev, f) ↦
        let (input, has, same) = stake_at-input c sm.params inputs n prev f in
        (prev, input, f, ground (arith, w.cached op n txid e), has, same)
  ]
]

later_stake_tx-new_tail :
    (c : Connectors) (op before txid : ℕ) (prev input : StakeTxData) (inputs : StakeChainInputs)
    (sm : StakeChainSm)
    → stake_txid sm op before ≡ some txid
    → get before inputs.stake_inputs ≡ some prev
    → get (suc before) inputs.stake_inputs ≡ some input
    → later_stake_tx c op before sm inputs
      ≡ ok (
          some (
            tail
              (new_tail c sm.params input prev.hash (record { txid = txid; vout = stake_vout }))))
unfolding later_stake_tx
later_stake_tx-new_tail c op before txid prev input inputs sm h p i =
    elim (Option-cases (get op sm.stake_txids)) [
      | inl e ↦ absurd (ground arith)
      | inr (txids, e) ↦ ground arith
    ]

-- The transaction at the next index is the one of the chain.
pub stake_tx-chain_txid :
    (c : Connectors) (op d : ℕ) (input : StakeTxData) (inputs : StakeChainInputs)
    (sm : StakeChainSm)
    → IsCoherent c sm
    → get op sm.stake_chains ≡ some inputs
    → get d inputs.stake_inputs ≡ some input
    → IsNext sm op d
    → (kind : StakeTxKind) × (stake_tx c op d sm ≡ ok (some kind))
      × (chain_txid c sm.params sm.stake_chains op d ≡ some (kind_txid c kind))
unfolding stake_tx first_stake_tx stake_at
stake_tx-chain_txid c op zero input inputs sm w at has next = (
  head (first_stake c sm.params inputs input),
  ground (arith, first-values_of_get inputs.stake_inputs input (w.sorted op inputs at) has),
  ground arith,
)
stake_tx-chain_txid c op (suc before) input inputs sm w at has next =
    let (prev, prev_input, made, cached, prev_has, same) =
      cached_tx c op before inputs sm w at next in
    let tx = advance c sm.params prev input in
    (
      tail tx,
      ground (
        arith,
        later_stake_tx-new_tail c op before (txid_of c sm.params prev) prev_input input inputs sm
            cached prev_has has,
        advance-new_tail c sm.params prev input,
      ),
      ground arith,
    )

cache_below :
    (c : Connectors) (op d txid : ℕ) (sm : StakeChainSm)
    → IsCoherent c sm
    → IsNext sm op d
    → (o n : ℕ)
    → stake_txid (record sm { stake_txids = cache_txid op d txid sm.stake_txids }) o (suc n) ≢ none
    → stake_txid (record sm { stake_txids = cache_txid op d txid sm.stake_txids }) o n ≢ none
cache_below c op zero txid sm w next o n h absent = ground (
  arith,
  h,
  w.below o n,
  stake_txid-cache_txid op 0 txid o n sm.stake_txids,
  stake_txid-cache_txid op 0 txid o (suc n) sm.stake_txids,
)
cache_below c op (suc before) txid sm w next o n h absent = ground (
  arith,
  h,
  next,
  w.below o n,
  stake_txid-cache_txid op (suc before) txid o n sm.stake_txids,
  stake_txid-cache_txid op (suc before) txid o (suc n) sm.stake_txids,
)

-- Any txid that the chain has may be cached where the one below is.
pub cache_txid-IsCoherent :
    (c : Connectors) (op d txid : ℕ) (sm : StakeChainSm)
    → IsCoherent c sm
    → IsNext sm op d
    → chain_txid c sm.params sm.stake_chains op d ≡ some txid
    → IsCoherent c (record sm { stake_txids = cache_txid op d txid sm.stake_txids })
cache_txid-IsCoherent c op d txid sm w next made = record {
  cached =
      λ o n t h. ground (arith, w.cached o n t, stake_txid-cache_txid op d txid o n sm.stake_txids);
  below = λ o n h. cache_below c op d txid sm w next o n h;
  sorted = w.sorted;
}
