-- ===== src/StakeChain/Steps.antt =====
-- The machine that a setup leaves, from the transaction that it makes or the error (process_setup of
-- crates/duty-tracker/src/stake_chain_state_machine.rs).
use strata_bridge.Prelude.{
  ℕ, zero, suc, Option, none, some, ◌≡◌, ◌≢◌, refl, arith, inl, inr, ◌⊎◌, Option-cases, first?,
  Result, ok, err,
}
use strata_bridge.Prelude.BTreeMap.{get, values}
use strata_bridge.StakeChain.{StakeTxData, StakeChainInputs, Connectors, StakeTxKind, kind_txid}
use strata_bridge.StakeChain.Machine.{
  StakeChainSm, StakeChainErr, stake_setup_data_not_found, DepositSetup, process_setup, stake_txid,
  stake_tx, first_stake_tx, later_stake_tx, cache_txid, stake_tx_data,
}
use strata_bridge.StakeChain.Cache.{grow, IsNext}

pub grow-IsNext :
    (op d e : ℕ) (input : StakeTxData) (inputs : StakeChainInputs) (sm : StakeChainSm)
    → IsNext sm op d
    → IsNext (grow op e input inputs sm) op d
grow-IsNext op zero e input inputs sm h = tt
grow-IsNext op (suc before) e input inputs sm h = h

-- A transaction is made only at the next index.
pub stake_tx-IsNext :
    (c : Connectors) (op d : ℕ) (kind : StakeTxKind) (sm : StakeChainSm)
    → stake_tx c op d sm ≡ ok (some kind)
    → IsNext sm op d
unfolding stake_tx later_stake_tx
stake_tx-IsNext c op zero kind sm h = tt
stake_tx-IsNext c op (suc before) kind sm h = λ absent.
    elim (Option-cases (get op sm.stake_chains)) [
      | inl e ↦ ground arith
      | inr (inputs, e) ↦ elim (Option-cases (get op sm.stake_txids)) [
        | inl f ↦ ground arith
        | inr (txids, f) ↦ ground arith
      ]
    ]

-- The machine that a setup leaves, from the transaction that it makes.
pub process_setup_made :
    (c : Connectors) (op : ℕ) (setup : DepositSetup) (sm : StakeChainSm) (inputs : StakeChainInputs)
    (kind : StakeTxKind)
    → stake_txid sm op setup.index ≡ none
    → get op sm.stake_chains ≡ some inputs
    → stake_tx c op setup.index (grow op setup.index (stake_tx_data setup) inputs sm)
      ≡ ok (some kind)
    → process_setup c op setup sm ≡ (
      ok (some (kind_txid c kind)),
      record (grow op setup.index (stake_tx_data setup) inputs sm) {
        stake_txids = cache_txid op setup.index (kind_txid c kind) sm.stake_txids;
      },
    )
unfolding process_setup
process_setup_made c op setup sm inputs kind absent at made = ground arith

pub process_setup_failed :
    (c : Connectors) (op : ℕ) (setup : DepositSetup) (sm : StakeChainSm) (inputs : StakeChainInputs)
    (e : StakeChainErr)
    → stake_txid sm op setup.index ≡ none
    → get op sm.stake_chains ≡ some inputs
    → stake_tx c op setup.index (grow op setup.index (stake_tx_data setup) inputs sm) ≡ err e
    → process_setup c op setup sm ≡ (err e, grow op setup.index (stake_tx_data setup) inputs sm)
unfolding process_setup
process_setup_failed c op setup sm inputs e absent at failed = ground arith

pub process_setup_known :
    (c : Connectors) (op txid : ℕ) (setup : DepositSetup) (sm : StakeChainSm)
    → stake_txid sm op setup.index ≡ some txid
    → process_setup c op setup sm ≡ (ok (some txid), sm)
unfolding process_setup
process_setup_known c op txid setup sm h = ground arith

pub process_setup_unknown :
    (c : Connectors) (op : ℕ) (setup : DepositSetup) (sm : StakeChainSm)
    → stake_txid sm op setup.index ≡ none
    → get op sm.stake_chains ≡ none
    → process_setup c op setup sm ≡ (err (stake_setup_data_not_found op), sm)
unfolding process_setup
process_setup_unknown c op setup sm h e = ground arith

pub made_or_failed {ℓ κ} :
    {A : Type ℓ} {E : Type κ} (r : Result (Option A) E)
    → r ≢ ok none
    → ((e : E) × (r ≡ err e)) ⊎ ((a : A) × (r ≡ ok (some a)))
made_or_failed (ok none) h = absurd (h refl)
made_or_failed (ok (some a)) h = inr (a, refl)
made_or_failed (err e) h = inl (e, refl)

-- With the operator's inputs there is always a transaction or an error.
pub stake_tx_ne-ok_none :
    (c : Connectors) (op d : ℕ) (sm : StakeChainSm)
    → get op sm.stake_chains ≢ none
    → stake_tx c op d sm ≢ ok none
unfolding stake_tx first_stake_tx later_stake_tx
stake_tx_ne-ok_none c op zero sm known = elim (Option-cases (get op sm.stake_chains)) [
  | inl e ↦ absurd (known e)
  | inr (inputs, e) ↦ elim (Option-cases (first? (values inputs.stake_inputs))) [
    | inl f ↦ λ h. ground arith
    | inr (input, f) ↦ λ h. ground arith
  ]
]
stake_tx_ne-ok_none c op (suc before) sm known = λ h. ground (arith, known)
