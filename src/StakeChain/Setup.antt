-- ===== src/StakeChain/Setup.antt =====
-- The messages of the stake chains (process_exchange and process_setup of
-- crates/duty-tracker/src/stake_chain_state_machine.rs), one at a time and in any order.
use strata_bridge.Prelude.{
  ℕ, suc, none, some, List, [], ◌∷◌, ◌≡◌, ◌≢◌, refl, sym, ap, ◌∙◌, arith, inl, inr, ◌⊎◌,
  Option-cases, ok, err,
}
use strata_bridge.Prelude.BTreeMap.{get, insert, get-insert_self}
use strata_bridge.Bitcoin.{OutPoint}
use strata_bridge.Operators.{OperatorTable}
use strata_bridge.StakeChain.{StakeChainInputs, StakeChainParams, Connectors, kind_txid}
use strata_bridge.StakeChain.Machine.{
  StakeChainSm, stake_tx_not_found, missing_stake_txid, DepositSetup, new, process_exchange,
  process_setup, stake_txid, stake_tx, later_stake_tx, stake_tx_data,
}
use strata_bridge.StakeChain.Coherent.{
  chain_txid, IsCoherent, new-IsCoherent, stake_txid-cache_txid, below_of_absent,
  process_exchange-IsCoherent,
}
use strata_bridge.StakeChain.Cache.{
  grow, grow-IsCoherent, IsNext, stake_tx-chain_txid, cache_txid-IsCoherent,
}
use strata_bridge.StakeChain.Steps.{
  grow-IsNext, stake_tx-IsNext, process_setup_made, process_setup_failed, process_setup_known,
  process_setup_unknown, made_or_failed, stake_tx_ne-ok_none,
}

-- A setup for the next index of an operator's chain, the operator's exchange known: the call
-- returns the txid of the chain's transaction at the index, and caches it.
pub process_setup-chain_txid :
    (c : Connectors) (op : ℕ) (setup : DepositSetup) (sm : StakeChainSm)
    → IsCoherent c sm
    → stake_txid sm op setup.index ≡ none
    → get op sm.stake_chains ≢ none
    → IsNext sm op setup.index
    → let (result, sm') = process_setup c op setup sm in
      (txid : ℕ) × (result ≡ ok (some txid))
      × (stake_txid sm' op setup.index ≡ some txid)
      × (chain_txid c sm'.params sm'.stake_chains op setup.index ≡ some txid)
process_setup-chain_txid c op setup sm w absent known next =
    elim (Option-cases (get op sm.stake_chains)) [
      | inl e ↦ absurd (known e)
      | inr (inputs, at) ↦
          let input = stake_tx_data setup in
          let inputs' : StakeChainInputs = record inputs {
            stake_inputs = insert setup.index input inputs.stake_inputs;
          } in
          let (kind, made, txid) =
            stake_tx-chain_txid c op setup.index input inputs' (grow op setup.index input inputs sm)
              (grow-IsCoherent c op setup.index input inputs sm w at absent)
              (get-insert_self op inputs' sm.stake_chains)
              (get-insert_self setup.index input inputs.stake_inputs)
              (grow-IsNext op setup.index setup.index input inputs sm next) in
          rw (process_setup_made c op setup sm inputs kind absent at made) (
            kind_txid c kind,
            refl,
            ground (
              arith,
              stake_txid-cache_txid op setup.index (kind_txid c kind) op setup.index sm.stake_txids,
            ),
            txid,
          )
    ]

process_setup_grown :
    (c : Connectors) (op : ℕ) (setup : DepositSetup) (inputs : StakeChainInputs) (sm : StakeChainSm)
    → IsCoherent c sm
    → stake_txid sm op setup.index ≡ none
    → get op sm.stake_chains ≡ some inputs
    → IsCoherent c (process_setup c op setup sm).1
process_setup_grown c op setup inputs sm w absent at =
    let input = stake_tx_data setup in
    let inputs' : StakeChainInputs = record inputs {
      stake_inputs = insert setup.index input inputs.stake_inputs;
    } in
    let grown = grow op setup.index input inputs sm in
    let w' = grow-IsCoherent c op setup.index input inputs sm w at absent in
    let present = get-insert_self op inputs' sm.stake_chains in
    elim (made_or_failed (stake_tx c op setup.index grown)
      (stake_tx_ne-ok_none c op setup.index grown (λ none'. cc))) [
        | inl (e, failed) ↦ rw (process_setup_failed c op setup sm inputs e absent at failed) w'
        | inr (kind, made) ↦
            let next = stake_tx-IsNext c op setup.index kind grown made in
            let (kind', made', txid) =
              stake_tx-chain_txid c op setup.index input inputs' grown w' present
                (get-insert_self setup.index input inputs.stake_inputs) next in
            rw (process_setup_made c op setup sm inputs kind' absent at made')
              (cache_txid-IsCoherent c op setup.index (kind_txid c kind') grown w' next txid)
      ]

pub process_setup-IsCoherent :
    (c : Connectors) (op : ℕ) (setup : DepositSetup) (sm : StakeChainSm)
    → IsCoherent c sm
    → IsCoherent c (process_setup c op setup sm).1
process_setup-IsCoherent c op setup sm w = elim (Option-cases (stake_txid sm op setup.index)) [
  | inr (txid, e) ↦ rw (process_setup_known c op txid setup sm e) w
  | inl absent ↦ elim (Option-cases (get op sm.stake_chains)) [
    | inl e ↦ rw (process_setup_unknown c op setup sm absent e) w
    | inr (inputs, at) ↦ process_setup_grown c op setup inputs sm w absent at
  ]
]

later_stake_tx_absent :
    (c : Connectors) (op before : ℕ) (sm : StakeChainSm) (inputs : StakeChainInputs)
    → stake_txid sm op before ≡ none
    → (later_stake_tx c op before sm inputs ≡ err (stake_tx_not_found op (suc before)))
      ⊎ (later_stake_tx c op before sm inputs ≡ err (missing_stake_txid op before))
unfolding later_stake_tx
later_stake_tx_absent c op before sm inputs absent = elim (Option-cases (get op sm.stake_txids)) [
  | inl e ↦ inl (ground arith)
  | inr (txids, e) ↦ inr (ground arith)
]

stake_tx-later :
    (c : Connectors) (op before d : ℕ) (sm : StakeChainSm) (inputs : StakeChainInputs)
    → get op sm.stake_chains ≡ some inputs
    → d ≡ suc before
    → stake_tx c op d sm ≡ later_stake_tx c op before sm inputs
unfolding stake_tx
stake_tx-later c op before d sm inputs at e = rw e (ground arith)

-- A setup that comes before the one below its index is an error, never a success without a txid; its
-- input is kept and nothing is cached.
pub process_setup_out_of_order :
    (c : Connectors) (op before : ℕ) (setup : DepositSetup) (sm : StakeChainSm)
    (inputs : StakeChainInputs)
    → IsCoherent c sm
    → get op sm.stake_chains ≡ some inputs
    → setup.index ≡ suc before
    → stake_txid sm op before ≡ none
    → let (result, sm') = process_setup c op setup sm in
      ((result ≡ err (stake_tx_not_found op setup.index))
        ⊎ (result ≡ err (missing_stake_txid op before)))
      × (sm' ≡ grow op setup.index (stake_tx_data setup) inputs sm)
process_setup_out_of_order c op before setup sm inputs w at index absent =
    let input = stake_tx_data setup in
    let inputs' : StakeChainInputs = record inputs {
      stake_inputs = insert setup.index input inputs.stake_inputs;
    } in
    let grown = grow op setup.index input inputs sm in
    let later =
      stake_tx-later c op before setup.index grown inputs'
        (get-insert_self op inputs' sm.stake_chains) index in
    let absent' = below_of_absent c sm w op before setup.index absent (omega (arith, index)) in
    elim (later_stake_tx_absent c op before grown inputs' absent) [
      | inl e ↦
          let e' : stake_tx c op setup.index grown ≡ err (stake_tx_not_found op setup.index) =
            later ∙ (e ∙ ap (λ d. err (stake_tx_not_found op d)) (sym index)) in
          rw
            (process_setup_failed c op setup sm inputs (stake_tx_not_found op setup.index) absent'
              at e')
            (inl refl, refl)
      | inr e ↦
          rw
            (process_setup_failed c op setup sm inputs (missing_stake_txid op before) absent' at
              (later ∙ e))
            (inr refl, refl)
    ]

pub data Message : Type 0 where
  exchange : (operator : ℕ) → OutPoint → Message
  setup : (operator : ℕ) → DepositSetup → Message

unfoldable pub process_message : Connectors → Message → StakeChainSm → StakeChainSm
unfolding process_exchange process_setup
process_message c (exchange operator outpoint) sm = process_exchange operator outpoint sm
process_message c (setup operator deposit) sm = (process_setup c operator deposit sm).1

unfoldable pub run : Connectors → List Message → StakeChainSm → StakeChainSm
unfolding process_message
run c [] sm = sm
run c (m ∷ messages) sm = run c messages (process_message c m sm)

pub process_message-IsCoherent :
    (c : Connectors) (m : Message) (sm : StakeChainSm)
    → IsCoherent c sm
    → IsCoherent c (process_message c m sm)
unfolding process_message
process_message-IsCoherent c (exchange operator outpoint) sm w =
    process_exchange-IsCoherent c operator outpoint sm w
process_message-IsCoherent c (setup operator deposit) sm w =
    process_setup-IsCoherent c operator deposit sm w

run-IsCoherent :
    (c : Connectors) (messages : List Message) (sm : StakeChainSm)
    → IsCoherent c sm
    → IsCoherent c (run c messages sm)
unfolding run
run-IsCoherent c [] sm w = w
run-IsCoherent c (m ∷ messages) sm w =
    run-IsCoherent c messages (process_message c m sm) (process_message-IsCoherent c m sm w)

-- After any exchanges and setups, in any order: each cached txid is that of the transaction at its
-- index of the operator's chain, as the stored inputs determine it; no index is cached before the
-- one below it; and the inputs of an operator are in the order of their indices.
pub run-new-IsCoherent :
    (c : Connectors) (network : ℕ) (table : OperatorTable) (params : StakeChainParams)
    (messages : List Message)
    → IsCoherent c (run c messages (new network table params))
run-new-IsCoherent c network table params messages =
    run-IsCoherent c messages (new network table params) (new-IsCoherent c network table params)
