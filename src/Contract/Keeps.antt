-- ===== src/Contract/Keeps.antt =====
-- What the steps of the setup leave as it was (the handlers from process_deposit_setup to
-- process_aggregate_sigs of crates/duty-tracker/src/contract_state_machine.rs).
use strata_bridge.Prelude.{
  ℕ, Option, none, some, List, [], ◌∷◌, ◌≡◌, ◌⊎◌, inl, inr, refl, arith, map, Option-cases,
  Bool-cases,
}
use strata_bridge.Prelude.BTreeMap.{BTreeMap, get, insert, values, collect}
use strata_bridge.Operators.{cardinality, pov_p2p_key}
use strata_bridge.PogMusig.{PogMusigF}
use strata_bridge.PegOutGraph.{PegOutGraphInput, PegOutGraphSummary}
use strata_bridge.Contract.Types.{Requested, ContractState, ContractSm, requested}
use strata_bridge.Contract.Duties.{OperatorDuty, Outcomes, Calls, accepted, rejected, panicked}
use strata_bridge.Contract.Phase.{phase, in_requested}
use strata_bridge.Contract.Setup.{retrieve_graph, retrieve_all, setup_graphs, setup_all}
use strata_bridge.Contract.Nonces.{
  claim_txid_to_operator_map, signatures_duty, aggregate_nonces, have_all, push_duty,
  signatures_duties, add_nonces,
}
use strata_bridge.Contract.Partials.{
  aux_data, cached_graph, aggregate_partials, ask_root_nonce, aggregate_all, add_partials,
  verified_partials,
}
use strata_bridge.Contract.Chain.{set_state}
use strata_bridge.Contract.Confirms.{after}

-- A request stays a request, and no other state changes.
abbrev pub Gathers : ContractSm → ContractSm → Type 0
Gathers sm sm' =
    (sm'.cfg ≡ sm.cfg)
    × (((phase sm.state.state ≡ in_requested) × (phase sm'.state.state ≡ in_requested))
        ⊎ (sm'.state.state ≡ sm.state.state))

abbrev pub request_of : ContractState → Option Requested
request_of (requested s) = some s
request_of _ = none

-- The inputs, the summaries and the claims of a request.
abbrev pub graphs_of :
    ContractState → Option (BTreeMap PegOutGraphInput × BTreeMap PegOutGraphSummary × BTreeMap ℕ)
graphs_of (requested s) = some (s.peg_out_graph_inputs, s.peg_out_graph_summaries, s.claim_txids)
graphs_of _ = none

-- The signatures for the deposit.
abbrev pub partials_of : ContractState → BTreeMap ℕ
partials_of (requested s) = s.root_partials
partials_of _ = []

retrieve_graph_frame :
    (calls : Calls) (input : PegOutGraphInput) (sm : ContractSm)
    → let sm' = (retrieve_graph calls input sm).1 in (sm'.cfg ≡ sm.cfg) × (sm'.state ≡ sm.state)
unfolding retrieve_graph
retrieve_graph_frame calls input sm = ground arith

retrieve_all_frame :
    (calls : Calls) (inputs : BTreeMap PegOutGraphInput) (sm : ContractSm)
    → let sm' = (retrieve_all calls inputs sm).1 in (sm'.cfg ≡ sm.cfg) × (sm'.state ≡ sm.state)
unfolding retrieve_all
retrieve_all_frame calls [] sm = (refl, refl)
retrieve_all_frame calls ((signer, input) ∷ inputs) sm = ground (
  arith,
  retrieve_graph_frame calls input sm,
  retrieve_all_frame calls inputs (retrieve_graph calls input sm).1,
)

pub setup_graphs_frame :
    (calls : Calls) (inputs : BTreeMap PegOutGraphInput) (sm : ContractSm)
    → let sm' = (setup_graphs calls inputs sm).1 in (sm'.cfg ≡ sm.cfg) × (sm'.state ≡ sm.state)
unfolding setup_graphs
setup_graphs_frame calls inputs sm = ground (arith, retrieve_all_frame calls inputs sm)

push_duty-after : (duty : OperatorDuty) (o : Outcomes) → after (push_duty duty o) ≡ after o
push_duty-after duty (accepted duties sm) = refl
push_duty-after duty (rejected e sm) = refl
push_duty-after duty panicked = refl

signatures_duties_frame :
    (calls : Calls) (s : Requested) (claims : List ℕ) (sm sm' : ContractSm)
    → after (signatures_duties calls s claims sm) ≡ some sm'
    → (sm'.cfg ≡ sm.cfg) × (sm'.state ≡ sm.state)
unfolding signatures_duties
signatures_duties_frame calls s [] sm sm' h = ground arith
signatures_duties_frame calls s (claim_txid ∷ claims) sm sm' h =
    elim (Option-cases (get claim_txid (claim_txid_to_operator_map s.claim_txids))) [
      | inl e ↦ ground arith
      | inr (owner, e) ↦ elim (Option-cases (get owner s.peg_out_graph_inputs)) [
        | inl e' ↦ ground arith
        | inr (input, e') ↦ elim (Option-cases (pov_p2p_key sm.cfg.operator_table)) [
          | inl f ↦ absurd (ground arith)
          | inr (pov_key, f) ↦ elim (Option-cases (get claim_txid s.agg_nonces)) [
            | inl f' ↦ ground (arith, retrieve_graph_frame calls input sm)
            | inr (aggnonces, f') ↦ ground (
              arith,
              retrieve_graph_frame calls input sm,
              push_duty-after
                  (signatures_duty calls s claim_txid pov_key aggnonces
                    (retrieve_graph calls input sm).0)
                  (signatures_duties calls s claims (retrieve_graph calls input sm).1),
              signatures_duties_frame calls s claims (retrieve_graph calls input sm).1 sm',
            )
          ]
        ]
      ]
    ]

-- A call at a request leaves a request with the same graphs and the same signatures for the deposit.
abbrev Keeps : Requested → ContractSm → ContractSm → Type 0
Keeps s sm sm' =
    (sm'.cfg ≡ sm.cfg)
    × (phase sm'.state.state ≡ in_requested)
    × (graphs_of sm'.state.state
        ≡ some (s.peg_out_graph_inputs, s.peg_out_graph_summaries, s.claim_txids))
    × (partials_of sm'.state.state ≡ s.root_partials)

pub add_nonces-Keeps :
    (calls : Calls) (signer claim_txid : ℕ) (unpacked : PogMusigF ℕ)
    (session : BTreeMap (PogMusigF ℕ)) (s : Requested) (sm sm' : ContractSm)
    → after (add_nonces calls signer claim_txid unpacked session s sm) ≡ some sm'
    → Keeps s sm sm'
unfolding add_nonces
add_nonces-Keeps calls signer claim_txid unpacked session s sm sm' h =
    let sessions = insert claim_txid (insert signer unpacked session) s.graph_nonces in
    let s'' : Requested = record s {
      graph_nonces = sessions;
      agg_nonces = aggregate_nonces calls sessions;
    } in
    elim (Bool-cases (have_all (cardinality sm.cfg.operator_table) s.claim_txids sessions)) [
      | inr waiting ↦ ground arith
      | inl complete ↦ ground (
        arith,
        signatures_duties_frame calls s'' (values s.claim_txids) (set_state sm (requested s'')) sm',
      )
    ]

ask_root_nonce-Keeps :
    (sigs : BTreeMap (PogMusigF ℕ)) (s : Requested) (sm sm' : ContractSm)
    → after (ask_root_nonce sigs s sm) ≡ some sm'
    → Keeps s sm sm'
unfolding ask_root_nonce
ask_root_nonce-Keeps sigs s sm sm' h = ground arith

aggregate_all-Keeps :
    (calls : Calls) (s : Requested) (sm sm' : ContractSm)
    → after (aggregate_all calls s sm) ≡ some sm'
    → Keeps s sm sm'
unfolding aggregate_all
aggregate_all-Keeps calls s sm sm' h =
    elim (Option-cases
      (aux_data calls s.agg_nonces (map (cached_graph calls sm) (values s.peg_out_graph_inputs)))) [
        | inl e ↦ absurd (ground arith)
        | inr (aux, e) ↦
            elim (Option-cases
              (aggregate_partials calls sm.cfg.operator_table (collect aux) s.graph_partials)) [
                | inl f ↦ absurd (ground arith)
                | inr (sigs, f) ↦ ask_root_nonce-Keeps sigs s sm sm' (ground arith)
              ]
      ]

pub add_partials-Keeps :
    (calls : Calls) (signer claim_txid : ℕ) (unpacked : PogMusigF ℕ)
    (session : BTreeMap (PogMusigF ℕ)) (s : Requested) (sm sm' : ContractSm)
    → after (add_partials calls signer claim_txid unpacked session s sm) ≡ some sm'
    → Keeps s sm sm'
unfolding add_partials
add_partials-Keeps calls signer claim_txid unpacked session s sm sm' h =
    let sessions = insert claim_txid (insert signer unpacked session) s.graph_partials in
    elim (Bool-cases (have_all (cardinality sm.cfg.operator_table) s.claim_txids sessions)) [
      | inr waiting ↦ ground arith
      | inl complete ↦
          ground (arith, aggregate_all-Keeps calls (record s { graph_partials = sessions }) sm sm')
    ]

pub verified_partials-after :
    (calls : Calls) (signer claim_txid : ℕ) (unpacked : PogMusigF ℕ)
    (session : BTreeMap (PogMusigF ℕ)) (s : Requested) (sm sm' : ContractSm)
    → after (verified_partials calls signer claim_txid unpacked session s sm) ≡ some sm'
    → (sm' ≡ sm) ⊎ (after (add_partials calls signer claim_txid unpacked session s sm) ≡ some sm')
unfolding verified_partials
verified_partials-after calls signer claim_txid unpacked session s sm sm' h = ground arith

pub setup_all-Keeps :
    (calls : Calls) (s : Requested) (sm sm' : ContractSm)
    → after (setup_all calls s sm) ≡ some sm'
    → (sm'.cfg ≡ sm.cfg) × (phase sm'.state.state ≡ in_requested)
unfolding setup_all
setup_all-Keeps calls s sm sm' h =
    ground (arith, setup_graphs_frame calls s.peg_out_graph_inputs sm)
