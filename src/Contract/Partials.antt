-- ===== src/Contract/Partials.antt =====
-- The collection and the aggregation of the partial signatures for the graphs
-- (process_graph_signatures, process_aggregate_sigs, verify_partials_from_peer and
-- aggregate_partials of crates/duty-tracker/src/contract_state_machine.rs).
use strata_bridge.Prelude.{
  ℕ, Bool, true, false, not, Option, none, some, List, [], ◌∷◌, map, ◌==◌, if◌then◌else◌, length,
  Run, done, Result, ok, err,
}
use strata_bridge.Prelude.Array.{head}
use strata_bridge.Prelude.BTreeMap.{BTreeMap, get, insert, remove, values, collect}
use strata_bridge.Operators.{
  OperatorTable, cardinality, pov_p2p_key, btc_keys, p2p_key_to_btc_key, convert_map_p2p_to_btc,
}
use strata_bridge.PogMusig.{
  PogMusigF, pack, unpack, sequence_pog_musig_f, sequence_option, sequence_result, zip5, zip_with,
  zip_with_4, map as map_pog,
}
use strata_bridge.PegOutGraph.{
  PegOutGraphInput, PegOutGraph, musig_sighash_types, musig_sighashes, musig_witnesses,
}
use strata_bridge.Contract.Types.{ContractCfg, Requested, ContractSm, requested}
use strata_bridge.Contract.Duties.{
  TransitionErr, Outcome, Outcomes, to_duties, Calls, publish_root_nonce, unexpected_state,
  unpack_failed, verification_failed, no_session, no_claim_txid, no_graph_input, no_agg_nonces,
  accepted, rejected, panicked,
}
use strata_bridge.Contract.State.{find_operator}
use strata_bridge.Contract.Chain.{set_state}
use strata_bridge.Contract.Setup.{deposit_request_txid}
use strata_bridge.Contract.Nonces.{pog_eq, repeated, have_all}

-- `any(is_invalid)` over the inputs: nonce, message, witness, partial signature and aggregated nonce
-- of each. `none` is the panic of an `expect`.
unfoldable pub any_invalid :
    Calls → (keys : List ℕ) (btc_key : ℕ) → List (ℕ × ℕ × ℕ × ℕ × ℕ) → Option Bool
any_invalid calls keys btc_key [] = some false
any_invalid calls keys btc_key ((pub_nonce, message, witness, partial_sig, aggnonce) ∷ rest) =
    elim (calls.create_agg_ctx keys witness) [
      | none ↦ none
      | some ctx ↦ elim (calls.verify_partial ctx partial_sig aggnonce btc_key pub_nonce message) [
        | false ↦ some true
        | true ↦ any_invalid calls keys btc_key rest
      ]
    ]

unfoldable pub verify_partials_from_peer :
    Calls
    → ContractCfg
    → (signer claim_txid : ℕ) → PegOutGraph
    → BTreeMap (BTreeMap (PogMusigF ℕ))
    → BTreeMap (PogMusigF ℕ)
    → PogMusigF ℕ
    → Run (Result Bool TransitionErr)
verify_partials_from_peer calls cfg signer claim_txid pog graph_nonces agg_nonces partial_sigs =
    elim (p2p_key_to_btc_key cfg.operator_table signer) [
      | none ↦ Run.panicked
      | some btc_key ↦ elim (get claim_txid graph_nonces) [
        | none ↦ Run.panicked
        | some session ↦
            if not (length session == cardinality cfg.operator_table)
            then done (ok false)
            else elim (get signer session) [
              | none ↦ Run.panicked
              | some pub_nonces ↦ elim (get claim_txid agg_nonces) [
                | none ↦ done (err (no_agg_nonces claim_txid))
                | some aggnonces ↦
                    elim (any_invalid calls (btc_keys cfg.operator_table) btc_key (
                      pack (
                        zip5 pub_nonces (musig_sighashes pog) (musig_witnesses pog) partial_sigs
                          aggnonces))) [
                            | none ↦ Run.panicked
                            | some true ↦ done (err verification_failed)
                            | some false ↦ done (ok true)
                          ]
              ]
            ]
      ]
    ]

pub record AuxAggData : Type 0 where
  pub agg_nonces : PogMusigF ℕ
  pub sighash_types : PogMusigF ℕ
  pub sighashes : PogMusigF ℕ
  pub witnesses : PogMusigF ℕ

-- The aggregate signatures of one graph; `none` is the panic of an `expect`.
unfoldable pub aggregate_graph :
    Calls → OperatorTable → AuxAggData → BTreeMap (PogMusigF ℕ) → Option (PogMusigF ℕ)
aggregate_graph calls table aux partials =
    elim (sequence_option (map_pog (calls.create_agg_ctx (btc_keys table)) aux.witnesses)) [
      | none ↦ none
      | some agg_contexts ↦ elim (convert_map_p2p_to_btc table partials) [
        | err key ↦ none
        | ok by_btc_key ↦
            elim (sequence_result (
              zip_with_4 calls.aggregate_partial_signatures agg_contexts aux.agg_nonces
                (sequence_pog_musig_f (values by_btc_key)) aux.sighashes)) [
                  | err e ↦ none
                  | ok schnorr_sigs ↦
                      some (zip_with calls.taproot_signature schnorr_sigs aux.sighash_types)
                ]
      ]
    ]

-- The closure over the graphs takes the partial signatures of each out of the map.
unfoldable pub aggregate_from :
    Calls
    → OperatorTable
    → BTreeMap AuxAggData
    → BTreeMap (BTreeMap (PogMusigF ℕ))
    → Option (List (ℕ × PogMusigF ℕ))
aggregate_from calls table [] graph_partials = some []
aggregate_from calls table ((claim_txid, aux) ∷ rest) graph_partials =
    elim (get claim_txid graph_partials) [
      | none ↦ none
      | some partials ↦ elim (aggregate_graph calls table aux partials) [
        | none ↦ none
        | some sigs ↦ elim (aggregate_from calls table rest (remove claim_txid graph_partials)) [
          | none ↦ none
          | some aggregated ↦ some ((claim_txid, sigs) ∷ aggregated)
        ]
      ]
    ]

unfoldable pub aggregate_partials :
    Calls
    → OperatorTable
    → BTreeMap AuxAggData
    → BTreeMap (BTreeMap (PogMusigF ℕ))
    → Option (BTreeMap (PogMusigF ℕ))
aggregate_partials calls table aux_data graph_partials =
    elim (aggregate_from calls table aux_data graph_partials) [
      | none ↦ none
      | some aggregated ↦ some (collect aggregated)
    ]

-- `get(..).cloned().unwrap_or_else(|| cfg.build_graph(..))`.
unfoldable pub cached_graph : Calls → ContractSm → PegOutGraphInput → PegOutGraph
cached_graph calls sm input = elim (get input.stake_outpoint.txid sm.pog) [
  | none ↦ calls.generate sm.cfg input
  | some pog ↦ pog
]

-- The auxiliary data of the graphs; `none` is the panic of the `expect`.
unfoldable pub aux_data :
    Calls → BTreeMap (PogMusigF ℕ) → List PegOutGraph → Option (List (ℕ × AuxAggData))
aux_data calls agg_nonces [] = some []
aux_data calls agg_nonces (pog ∷ pogs) = elim (get (calls.compute_txid pog.claim_tx) agg_nonces) [
  | none ↦ none
  | some aggnonces ↦ elim (aux_data calls agg_nonces pogs) [
    | none ↦ none
    | some rest ↦ some (
        (
          calls.compute_txid pog.claim_tx,
          record {
            agg_nonces = aggnonces;
            sighash_types = musig_sighash_types pog;
            sighashes = musig_sighashes pog;
            witnesses = musig_witnesses pog;
          },
        )
        ∷ rest)
  ]
]

-- The end of both handlers: the signatures are known, and the nonce of the deposit is asked for.
unfoldable pub ask_root_nonce : BTreeMap (PogMusigF ℕ) → Requested → ContractSm → Outcome
ask_root_nonce sigs s sm =
    let s' : Requested = record s { graph_sigs = sigs } in
    elim (pov_p2p_key sm.cfg.operator_table) [
      | none ↦ panicked
      | some pov_key ↦ elim (deposit_request_txid sm.cfg) [
        | none ↦ panicked
        | some txid ↦
            accepted
              (some (
                publish_root_nonce txid (head sm.cfg.deposit_tx.witnesses)
                  (get pov_key s.root_nonces)))
              (set_state sm (requested s'))
      ]
    ]

unfoldable pub aggregate_all : Calls → Requested → ContractSm → Outcome
aggregate_all calls s sm =
    elim (aux_data calls s.agg_nonces
      (map (cached_graph calls sm) (values s.peg_out_graph_inputs))) [
        | none ↦ panicked
        | some aux ↦
            elim (aggregate_partials calls sm.cfg.operator_table (collect aux) s.graph_partials) [
              | none ↦ panicked
              | some sigs ↦ ask_root_nonce sigs s sm
            ]
      ]

-- The session of a claim with one operator's signatures more.
unfoldable pub add_partials :
    Calls
    → (signer claim_txid : ℕ) → PogMusigF ℕ
    → BTreeMap (PogMusigF ℕ)
    → Requested
    → ContractSm
    → Outcome
add_partials calls signer claim_txid unpacked session s sm =
    let s' : Requested = record s {
      graph_partials = insert claim_txid (insert signer unpacked session) s.graph_partials;
    } in
    if not (have_all (cardinality sm.cfg.operator_table) s'.claim_txids s'.graph_partials)
    then accepted none (set_state sm (requested s'))
    else aggregate_all calls s' sm

unfoldable pub verified_partials :
    Calls
    → (signer claim_txid : ℕ) → PogMusigF ℕ
    → BTreeMap (PogMusigF ℕ)
    → Requested
    → ContractSm
    → Outcome
verified_partials calls signer claim_txid unpacked session s sm =
    elim (find_operator s.claim_txids claim_txid) [
      | none ↦ rejected (no_claim_txid claim_txid) sm
      | some graph_owner ↦ elim (get graph_owner s.peg_out_graph_inputs) [
        | none ↦ rejected (no_graph_input signer) sm
        | some input ↦
            elim (verify_partials_from_peer calls sm.cfg signer claim_txid
              (cached_graph calls sm input) s.graph_nonces s.agg_nonces unpacked) [
                | Run.panicked ↦ panicked
                | done (err e) ↦ rejected e sm
                | done (ok false) ↦ accepted none sm
                | done (ok true) ↦ add_partials calls signer claim_txid unpacked session s sm
              ]
      ]
    ]

unfoldable pub process_graph_signatures :
    Calls → (signer claim_txid : ℕ) → List ℕ → ContractSm → Outcome
process_graph_signatures calls signer claim_txid partial_sigs sm = elim (unpack partial_sigs) [
  | none ↦ rejected unpack_failed sm
  | some unpacked ↦ elim sm.state.state [
    | requested s ↦ elim (get claim_txid s.graph_partials) [
      | none ↦ rejected (no_session claim_txid) sm
      | some session ↦ elim (get signer session) [
        | some existing ↦ repeated calls (pog_eq unpacked existing) none sm
        | none ↦ verified_partials calls signer claim_txid unpacked session s sm
      ]
    ]
    | _ ↦ rejected unexpected_state sm
  ]
]

unfoldable pub process_aggregate_sigs : BTreeMap (PogMusigF ℕ) → ContractSm → Outcomes
process_aggregate_sigs sigs sm = elim sm.state.state [
  | requested s ↦ to_duties (ask_root_nonce sigs s sm)
  | _ ↦ rejected unexpected_state sm
]
