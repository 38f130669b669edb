-- ===== src/StakeChain/Machine.antt =====
-- The state machine over the stake chains of all operators
-- (crates/duty-tracker/src/stake_chain_state_machine.rs, and the message of a deposit setup of
-- contract_state_machine.rs). An index is a `u32` that keys a map, so that the number of entries and
-- the index after the last one do not wrap.
use strata_bridge.Prelude.{
  ℕ, zero, suc, Option, none, some, List, [], ◌∷◌, map, length, first?, Result, ok, err,
}
use strata_bridge.Prelude.BTreeMap.{BTreeMap, get, insert, values, collect}
use strata_bridge.Bitcoin.{OutPoint}
use strata_bridge.Operators.{OperatorTable, p2p_keys, pov_p2p_key}
use strata_bridge.StakeChain.{
  StakeTxData, StakeChainInputs, StakeChainParams, Connectors, StakeTx, StakeTxKind, head, tail,
  stake_vout, new_head, new_tail, kind_txid, StakeChain, new as new_chain,
}

pub record WotsPublicKeys : Type 0 where
  pub withdrawal_fulfillment : ℕ
  pub groth16 : ℕ

pub record DepositSetup : Type 0 where
  pub index : ℕ
  pub hash : ℕ
  pub funding_outpoint : OutPoint
  pub operator_pk : ℕ
  pub wots_pks : WotsPublicKeys

abbrev pub stake_tx_data : DepositSetup → StakeTxData
stake_tx_data setup = record {
  operator_funds = setup.funding_outpoint;
  hash = setup.hash;
  withdrawal_fulfillment_pk = setup.wots_pks.withdrawal_fulfillment;
  operator_pubkey = setup.operator_pk;
}

pub data StakeChainErr : Type 0 where
  operator_p2p_key_not_found : ℕ → StakeChainErr
  incomplete_state : List ℕ → StakeChainErr
  missing_stake_txid incomplete_stake_chain_input stake_tx_not_found :
      (operator index : ℕ) → StakeChainErr
  stake_setup_data_not_found : ℕ → StakeChainErr
  unexpected : StakeChainErr

pub record StakeChainSm : Type 0 where
  pub network : ℕ
  pub params : StakeChainParams
  pub operator_table : OperatorTable
  pub stake_chains : BTreeMap StakeChainInputs
  pub stake_txids : BTreeMap (BTreeMap ℕ)

unfoldable pub new : (network : ℕ) → OperatorTable → StakeChainParams → StakeChainSm
new network operator_table params = record {
  network = network;
  params = params;
  operator_table = operator_table;
  stake_chains = [];
  stake_txids = [];
}

-- The entry is only made where the operator has none: a redundant one is put back.
unfoldable pub process_exchange : (operator : ℕ) → OutPoint → StakeChainSm → StakeChainSm
unfolding get insert
process_exchange operator pre_stake_outpoint sm =
    let inputs : StakeChainInputs = record {
      stake_inputs = [];
      pre_stake_outpoint = pre_stake_outpoint;
    } in
    let exchanged = insert operator inputs sm.stake_chains in
    elim (get operator sm.stake_chains) [
      | none ↦ record sm { stake_chains = exchanged }
      | some old ↦ record sm { stake_chains = insert operator old exchanged }
    ]

abbrev pub stake_txid : StakeChainSm → (op deposit_idx : ℕ) → Option ℕ
stake_txid sm op deposit_idx = elim (get op sm.stake_txids) [
  | none ↦ none
  | some txids ↦ get deposit_idx txids
]

-- `none` is the panic of the table's lookup.
abbrev pub height : StakeChainSm → Option ℕ
height sm = elim (pov_p2p_key sm.operator_table) [
  | none ↦ none
  | some my_key ↦ elim (get my_key sm.stake_txids) [
    | none ↦ some 0
    | some txids ↦ some (length txids)
  ]
]

-- `self.stake_txids.entry(operator).or_default().insert(deposit_index, stake_txid)`.
unfoldable pub cache_txid :
    (operator index txid : ℕ) → BTreeMap (BTreeMap ℕ) → BTreeMap (BTreeMap ℕ)
unfolding get insert
cache_txid operator index txid m = elim (get operator m) [
  | none ↦ insert operator (insert index txid []) m
  | some txids ↦ insert operator (insert index txid txids) m
]

-- `filter_map` over the keys.
abbrev pub known_inputs : BTreeMap StakeChainInputs → List ℕ → List StakeChainInputs
known_inputs stake_chains [] = []
known_inputs stake_chains (key ∷ keys) =
    let rest = known_inputs stake_chains keys in
    elim (get key stake_chains) [ none ↦ rest | some inputs ↦ inputs ∷ rest ]

-- `zip` with the keys, the keys second.
abbrev pub zip_keys {ℓ} : {A : Type ℓ} → List A → List ℕ → List (ℕ × A)
zip_keys [] keys = []
zip_keys (a ∷ rest) [] = []
zip_keys (a ∷ rest) (key ∷ keys) = (key, a) ∷ zip_keys rest keys

-- `connectors` are those at the machine's network, table and parameters.
module _ (connectors : Connectors) where
  -- The branches of `stake_tx` for the first transaction and for a later one, at an operator's inputs.
  unfoldable pub first_stake_tx :
      (op : ℕ) → StakeChainParams → StakeChainInputs → Result (Option StakeTxKind) StakeChainErr
  unfolding new_head
  first_stake_tx op params inputs = elim (first? (values inputs.stake_inputs)) [
    | none ↦ err (stake_tx_not_found op 0)
    | some first ↦ ok (
        some (
          head (
            new_head connectors params first.hash first.withdrawal_fulfillment_pk
              inputs.pre_stake_outpoint first.operator_funds first.operator_pubkey)))
  ]

  unfoldable pub later_stake_tx :
      (op before : ℕ) → StakeChainSm → StakeChainInputs → Result (Option StakeTxKind) StakeChainErr
  unfolding new_tail get
  later_stake_tx op before sm inputs = elim (get op sm.stake_txids) [
    | none ↦ err (stake_tx_not_found op (suc before))
    | some txids ↦ elim (get before txids) [
      | none ↦ err (missing_stake_txid op before)
      | some prev_stake_txid ↦ elim (get before inputs.stake_inputs) [
        | none ↦ err (incomplete_stake_chain_input op before)
        | some prev_input ↦ elim (get (suc before) inputs.stake_inputs) [
          | none ↦ err (incomplete_stake_chain_input op (suc before))
          | some input ↦ ok (
              some (
                tail (
                  new_tail connectors sm.params input prev_input.hash
                    (record { txid = prev_stake_txid; vout = stake_vout }))))
        ]
      ]
    ]
  ]

  unfoldable pub stake_tx : (op nth : ℕ) → StakeChainSm → Result (Option StakeTxKind) StakeChainErr
  unfolding first_stake_tx later_stake_tx
  stake_tx op zero sm = elim (get op sm.stake_chains) [
    | none ↦ ok none
    | some inputs ↦ first_stake_tx op sm.params inputs
  ]
  stake_tx op (suc before) sm = elim (get op sm.stake_chains) [
    | none ↦ ok none
    | some inputs ↦ later_stake_tx op before sm inputs
  ]

  -- The result with the machine that the call leaves.
  unfoldable pub process_setup :
      (operator : ℕ) → DepositSetup → StakeChainSm → Result (Option ℕ) StakeChainErr × StakeChainSm
  unfolding stake_tx cache_txid insert
  process_setup operator setup sm = elim (stake_txid sm operator setup.index) [
    | some known ↦ (ok (some known), sm)
    | none ↦ elim (get operator sm.stake_chains) [
      | none ↦ (err (stake_setup_data_not_found operator), sm)
      | some inputs ↦
          let inputs' : StakeChainInputs = record inputs {
            stake_inputs = insert setup.index (stake_tx_data setup) inputs.stake_inputs;
          } in
          let sm' : StakeChainSm = record sm {
            stake_chains = insert operator inputs' sm.stake_chains;
          } in
          elim (stake_tx operator setup.index sm') [
            | err e ↦ (err e, sm')
            | ok none ↦ (ok none, sm')
            | ok (some tx) ↦ (
              ok (some (kind_txid connectors tx)),
              record sm' {
                stake_txids =
                    cache_txid operator setup.index (kind_txid connectors tx) sm'.stake_txids;
              },
            )
          ]
    ]
  ]

  -- `enumerate` over the tail, from an index on.
  abbrev pub indexed : ℕ → List StakeTx → List (ℕ × ℕ)
  indexed index [] = []
  indexed index (tx ∷ txs) =
      (index, connectors.compute_txid tx.unsigned_tx) ∷ indexed (suc index) txs

  unfoldable pub chain_txids : StakeChain → BTreeMap ℕ
  unfolding collect
  chain_txids chain = elim chain.head [
    | none ↦ []
    | some first ↦ collect ((0, connectors.compute_txid first.unsigned_tx) ∷ indexed 1 chain.tail)
  ]

  unfoldable pub restore :
      (network : ℕ) → OperatorTable → StakeChainParams → BTreeMap StakeChainInputs → StakeChainSm
  unfolding chain_txids new_chain collect
  restore network operator_table params stake_chains = record {
    network = network;
    params = params;
    operator_table = operator_table;
    stake_chains = stake_chains;
    stake_txids = collect (
        zip_keys
          (map (λ inputs. chain_txids (new_chain connectors params inputs))
            (known_inputs stake_chains (p2p_keys operator_table)))
          (p2p_keys operator_table));
  }
