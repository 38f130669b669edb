-- ===== src/Contract/Nonces.antt =====
-- The collection of the nonces for the graphs (process_graph_nonces and aggregate_nonces of
-- crates/duty-tracker/src/contract_state_machine.rs).
use strata_bridge.Prelude.{
  ℕ, Bool, false, not, Option, none, some, List, [], ◌∷◌, map, ◌==◌, ◌&&◌, if◌then◌else◌, length,
  all, bytes_eq,
}
use strata_bridge.Prelude.BTreeMap.{BTreeMap, get, insert, values, collect}
use strata_bridge.Operators.{cardinality, pov_p2p_key}
use strata_bridge.PogMusig.{PogMusigF, pack, unpack, sequence_pog_musig_f, map as map_pog}
use strata_bridge.PegOutGraph.{PegOutGraph, musig_inpoints, musig_sighashes, musig_witnesses}
use strata_bridge.Contract.Types.{Requested, ContractSm, requested}
use strata_bridge.Contract.Duties.{
  OperatorDuty, Reply, Outcomes, Calls, publish_graph_signatures, unexpected_state, unpack_failed,
  no_session, no_claim_txid, no_graph_input, no_agg_nonces, accepted, rejected, panicked,
}
use strata_bridge.Contract.Chain.{set_state}
use strata_bridge.Contract.Setup.{retrieve_graph}

-- Equality of two graphs' data.
abbrev pub pog_eq : PogMusigF ℕ → PogMusigF ℕ → Bool
pog_eq a b = bytes_eq (pack a) (pack b)

-- A message that was received before: a debug build checks that it is the same.
abbrev pub repeated : {D : Type 0} → Calls → Bool → D → ContractSm → Reply D
repeated calls same nothing sm = if calls.debug && not same then panicked else accepted nothing sm

-- Has each claim an entry from each operator?
abbrev pub have_all {ℓ} : {V : Type ℓ} → ℕ → BTreeMap ℕ → BTreeMap (BTreeMap V) → Bool
have_all num_operators claims sessions =
    all
      (λ claim_txid. elim (get claim_txid sessions) [
        | none ↦ false
        | some session ↦ length session == num_operators
      ])
      (values claims)

unfoldable pub aggregate_nonces : Calls → BTreeMap (BTreeMap (PogMusigF ℕ)) → BTreeMap (PogMusigF ℕ)
aggregate_nonces calls graph_nonces = collect (
    map
      (λ (claim_txid, operator_nonces).
        (claim_txid, map_pog calls.sum_nonces (sequence_pog_musig_f (values operator_nonces))))
      graph_nonces)

abbrev pub push_duty : OperatorDuty → Outcomes → Outcomes
push_duty duty (accepted duties sm) = accepted (duty ∷ duties) sm
push_duty duty (rejected e sm) = rejected e sm
push_duty duty panicked = panicked

abbrev pub claim_txid_to_operator_map : BTreeMap ℕ → BTreeMap ℕ
claim_txid_to_operator_map claims = collect (map (λ (op, claim_txid). (claim_txid, op)) claims)

abbrev pub existing_partials : Requested → (claim_txid pov_key : ℕ) → Option (PogMusigF ℕ)
existing_partials s claim_txid pov_key = elim (get claim_txid s.graph_partials) [
  | none ↦ none
  | some session ↦ get pov_key session
]

unfoldable pub signatures_duty :
    Calls → Requested → (claim_txid pov_key : ℕ) → PogMusigF ℕ → PegOutGraph → OperatorDuty
signatures_duty calls s claim_txid pov_key aggnonces pog =
    publish_graph_signatures claim_txid aggnonces (musig_inpoints calls.compute_txid pog)
      (musig_sighashes pog) (musig_witnesses pog) (existing_partials s claim_txid pov_key)

-- The loop over the claims.
unfoldable pub signatures_duties : Calls → Requested → List ℕ → ContractSm → Outcomes
signatures_duties calls s [] sm = accepted [] sm
signatures_duties calls s (claim_txid ∷ claims) sm =
    elim (get claim_txid (claim_txid_to_operator_map s.claim_txids)) [
      | none ↦ rejected (no_claim_txid claim_txid) sm
      | some graph_owner ↦ elim (get graph_owner s.peg_out_graph_inputs) [
        | none ↦ rejected (no_graph_input claim_txid) sm
        | some input ↦
            let (pog, sm') = retrieve_graph calls input sm in
            elim (pov_p2p_key sm.cfg.operator_table) [
              | none ↦ panicked
              | some pov_key ↦ elim (get claim_txid s.agg_nonces) [
                | none ↦ rejected (no_agg_nonces claim_txid) sm'
                | some aggnonces ↦
                    push_duty (signatures_duty calls s claim_txid pov_key aggnonces pog)
                      (signatures_duties calls s claims sm')
              ]
            ]
      ]
    ]

-- The session of a claim with one operator's nonces more.
unfoldable pub add_nonces :
    Calls
    → (signer claim_txid : ℕ) → PogMusigF ℕ
    → BTreeMap (PogMusigF ℕ)
    → Requested
    → ContractSm
    → Outcomes
add_nonces calls signer claim_txid unpacked session s sm =
    let s' : Requested = record s {
      graph_nonces = insert claim_txid (insert signer unpacked session) s.graph_nonces;
    } in
    let s'' : Requested = record s' { agg_nonces = aggregate_nonces calls s'.graph_nonces } in
    if not (have_all (cardinality sm.cfg.operator_table) s'.claim_txids s'.graph_nonces)
    then accepted [] (set_state sm (requested s'))
    else signatures_duties calls s'' (values s''.claim_txids) (set_state sm (requested s''))

unfoldable pub process_graph_nonces :
    Calls → (signer claim_txid : ℕ) → List ℕ → ContractSm → Outcomes
process_graph_nonces calls signer claim_txid nonces sm = elim sm.state.state [
  | requested s ↦ elim (unpack nonces) [
    | none ↦ rejected unpack_failed sm
    | some unpacked ↦ elim (get claim_txid s.graph_nonces) [
      | none ↦ rejected (no_session claim_txid) sm
      | some session ↦ elim (get signer session) [
        | some existing ↦ repeated calls (pog_eq unpacked existing) [] sm
        | none ↦ add_nonces calls signer claim_txid unpacked session s sm
      ]
    ]
  ]
  | _ ↦ rejected unexpected_state sm
]
