-- ===== src/Contract/Root.antt =====
-- The nonces and the signatures for the deposit transaction (process_root_nonce and
-- process_root_signature of crates/duty-tracker/src/contract_state_machine.rs).
use strata_bridge.Prelude.{ℕ, true, false, none, some, List, [], ◌∷◌, ◌==◌, if◌then◌else◌, length}
use strata_bridge.Prelude.Array.{head}
use strata_bridge.Prelude.BTreeMap.{BTreeMap, get, insert, values}
use strata_bridge.Operators.{
  OperatorTable, cardinality, btc_keys, btc_key_to_p2p_key, p2p_key_to_btc_key,
}
use strata_bridge.Contract.Types.{Requested, ContractSm, requested, deposited}
use strata_bridge.Contract.Duties.{
  Outcome, Calls, publish_root_signature, publish_deposit, unexpected_state, no_btc_key,
  no_root_nonce, accepted, rejected, panicked,
}
use strata_bridge.Contract.Chain.{set_state}
use strata_bridge.Contract.Setup.{deposit_request_txid}
use strata_bridge.Contract.Nonces.{repeated}

-- `filter_map` over the bitcoin keys, to what the operator of the key sent.
unfoldable pub in_key_order : OperatorTable → BTreeMap ℕ → List ℕ → List ℕ
in_key_order table sent [] = []
in_key_order table sent (btc_key ∷ keys) =
    let rest = in_key_order table sent keys in
    elim (btc_key_to_p2p_key table btc_key) [
      | none ↦ rest
      | some p2p_key ↦ elim (get p2p_key sent) [ none ↦ rest | some value ↦ value ∷ rest ]
    ]

unfoldable pub add_root_nonce : Calls → (signer nonce : ℕ) → Requested → ContractSm → Outcome
add_root_nonce calls signer nonce s sm =
    let s' : Requested = record s { root_nonces = insert signer nonce s.root_nonces } in
    let table = sm.cfg.operator_table in
    if length s'.root_nonces == cardinality table
    then elim (deposit_request_txid sm.cfg) [
      | none ↦ panicked
      | some txid ↦
          accepted
            (some (
              publish_root_signature txid
                (calls.sum_nonces (in_key_order table s'.root_nonces (btc_keys table)))
                (head sm.cfg.deposit_tx.sighashes) (head sm.cfg.deposit_tx.witnesses) none))
            (set_state sm (requested s'))
    ]
    else accepted none (set_state sm (requested s'))

unfoldable pub process_root_nonce : Calls → (signer nonce : ℕ) → ContractSm → Outcome
process_root_nonce calls signer nonce sm = elim sm.state.state [
  | requested s ↦ elim (get signer s.root_nonces) [
    | some existing ↦ repeated calls (nonce == existing) none sm
    | none ↦ add_root_nonce calls signer nonce s sm
  ]
  | deposited s ↦ accepted none sm
  | _ ↦ rejected unexpected_state sm
]

unfoldable pub add_root_partial : (signer sig aggnonce : ℕ) → Requested → ContractSm → Outcome
add_root_partial signer sig aggnonce s sm =
    let s' : Requested = record s { root_partials = insert signer sig s.root_partials } in
    let table = sm.cfg.operator_table in
    accepted
      (if length s'.root_partials == cardinality table
        then some (
            publish_deposit sm.cfg.deposit_tx (in_key_order table s'.root_partials (btc_keys table))
              aggnonce)
        else none)
      (set_state sm (requested s'))

-- A signature is checked against the nonces that were received before it.
unfoldable pub check_root_partial : Calls → (signer sig : ℕ) → Requested → ContractSm → Outcome
check_root_partial calls signer sig s sm =
    let aggnonce = calls.sum_nonces (values s.root_nonces) in
    elim (calls.create_agg_ctx (btc_keys sm.cfg.operator_table)
      (head sm.cfg.deposit_tx.witnesses)) [
        | none ↦ panicked
        | some ctx ↦ elim (p2p_key_to_btc_key sm.cfg.operator_table signer) [
          | none ↦ rejected (no_btc_key signer) sm
          | some btc_key ↦ elim (get signer s.root_nonces) [
            | none ↦ rejected (no_root_nonce signer) sm
            | some nonce ↦
                elim (calls.verify_partial ctx sig aggnonce btc_key nonce
                  (head sm.cfg.deposit_tx.sighashes)) [
                    | false ↦ accepted none sm
                    | true ↦ add_root_partial signer sig aggnonce s sm
                  ]
          ]
        ]
      ]

unfoldable pub process_root_signature : Calls → (signer sig : ℕ) → ContractSm → Outcome
process_root_signature calls signer sig sm = elim sm.state.state [
  | requested s ↦ elim (get signer s.root_partials) [
    | some existing ↦ repeated calls (sig == existing) none sm
    | none ↦ check_root_partial calls signer sig s sm
  ]
  | deposited s ↦ accepted none sm
  | _ ↦ rejected unexpected_state sm
]
