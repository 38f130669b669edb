-- ===== src/Contract/Gathering.antt =====
-- What the messages of a contract's setup change (the handlers from process_deposit_setup to
-- process_root_signature of crates/duty-tracker/src/contract_state_machine.rs).
use strata_bridge.Prelude.{
  ℕ, Bool, sym, ◌∙◌, true, false, some, List, ◌≡◌, inl, inr, arith, Option-cases,
}
use strata_bridge.Prelude.BTreeMap.{BTreeMap, get}
use strata_bridge.PogMusig.{PogMusigF, unpack}
use strata_bridge.Contract.Types.{ContractSm}
use strata_bridge.Contract.Duties.{
  ContractEvent, deposit_setup, graph_nonces, graph_sigs, aggregated_sigs, root_nonce, root_sig,
  assignment, deposit_confirmation, peg_out_graph_confirmation, block, claim_failure,
  assertion_failure, Calls,
}
use strata_bridge.Contract.Setup.{add_input, process_deposit_setup}
use strata_bridge.Contract.Nonces.{process_graph_nonces}
use strata_bridge.Contract.Partials.{
  ask_root_nonce, process_graph_signatures, process_aggregate_sigs,
}
use strata_bridge.Contract.Root.{
  add_root_nonce, process_root_nonce, add_root_partial, check_root_partial, process_root_signature,
}
use strata_bridge.Contract.Confirms.{after, after-to_duties}
use strata_bridge.Contract.Machine.{process_contract_event}
use strata_bridge.Contract.Keeps.{
  Gathers, request_of, graphs_of, partials_of, add_nonces-Keeps, add_partials-Keeps,
  verified_partials-after, setup_all-Keeps,
}

module _ (calls : Calls) (sm sm' : ContractSm) where
  pub process_deposit_setup-Gathers :
      (signer operator_pubkey stake_hash stake_txid wots_keys : ℕ)
      → after
          (process_deposit_setup calls signer operator_pubkey stake_hash stake_txid wots_keys sm)
        ≡ some sm'
      → Gathers sm sm'
  unfolding process_deposit_setup
  process_deposit_setup-Gathers signer operator_pubkey stake_hash stake_txid wots_keys h =
      elim (Option-cases (request_of sm.state.state)) [
        | inl e ↦ ground arith
        | inr (s, e) ↦ ground (
          arith,
          setup_all-Keeps calls
              (record s {
                peg_out_graph_inputs =
                    add_input signer operator_pubkey stake_hash stake_txid wots_keys
                      s.peg_out_graph_inputs;
              })
              sm sm',
        )
      ]

  pub process_root_nonce-Gathers :
      (signer nonce : ℕ)
      → after (process_root_nonce calls signer nonce sm) ≡ some sm'
      → Gathers sm sm'
        × (graphs_of sm'.state.state ≡ graphs_of sm.state.state)
        × (partials_of sm'.state.state ≡ partials_of sm.state.state)
  unfolding process_root_nonce add_root_nonce
  process_root_nonce-Gathers signer nonce h = ground arith

  pub process_root_signature-Gathers :
      (signer sig : ℕ)
      → after (process_root_signature calls signer sig sm) ≡ some sm'
      → Gathers sm sm' × (graphs_of sm'.state.state ≡ graphs_of sm.state.state)
  unfolding process_root_signature check_root_partial add_root_partial
  process_root_signature-Gathers signer sig h = ground arith

  pub process_aggregate_sigs-Gathers :
      (sigs : BTreeMap (PogMusigF ℕ))
      → after (process_aggregate_sigs sigs sm) ≡ some sm'
      → Gathers sm sm'
        × (graphs_of sm'.state.state ≡ graphs_of sm.state.state)
        × (partials_of sm'.state.state ≡ partials_of sm.state.state)
  unfolding process_aggregate_sigs ask_root_nonce
  process_aggregate_sigs-Gathers sigs h = ground arith

  pub process_graph_signatures-Gathers :
      (signer claim_txid : ℕ) (partial_sigs : List ℕ)
      → after (process_graph_signatures calls signer claim_txid partial_sigs sm) ≡ some sm'
      → Gathers sm sm'
        × (graphs_of sm'.state.state ≡ graphs_of sm.state.state)
        × (partials_of sm'.state.state ≡ partials_of sm.state.state)
  unfolding process_graph_signatures
  process_graph_signatures-Gathers signer claim_txid partial_sigs h =
      elim (Option-cases (request_of sm.state.state)) [
        | inl e ↦ ground arith
        | inr (s, e) ↦ elim (Option-cases (unpack partial_sigs)) [
          | inl f ↦ ground arith
          | inr (unpacked, f) ↦ elim (Option-cases (get claim_txid s.graph_partials)) [
            | inl g ↦ ground arith
            | inr (session, g) ↦ ground (
              arith,
              verified_partials-after calls signer claim_txid unpacked session s sm sm',
              add_partials-Keeps calls signer claim_txid unpacked session s sm sm',
            )
          ]
        ]
      ]

  pub process_graph_nonces-Gathers :
      (signer claim_txid : ℕ) (nonces : List ℕ)
      → after (process_graph_nonces calls signer claim_txid nonces sm) ≡ some sm'
      → Gathers sm sm'
        × (graphs_of sm'.state.state ≡ graphs_of sm.state.state)
        × (partials_of sm'.state.state ≡ partials_of sm.state.state)
  unfolding process_graph_nonces
  process_graph_nonces-Gathers signer claim_txid nonces h =
      elim (Option-cases (request_of sm.state.state)) [
        | inl e ↦ ground arith
        | inr (s, e) ↦ elim (Option-cases (unpack nonces)) [
          | inl f ↦ ground arith
          | inr (unpacked, f) ↦ elim (Option-cases (get claim_txid s.graph_nonces)) [
            | inl g ↦ ground arith
            | inr (session, g) ↦
                ground (arith, add_nonces-Keeps calls signer claim_txid unpacked session s sm sm')
          ]
        ]
      ]

abbrev pub is_setup : ContractEvent → Bool
is_setup (deposit_setup operator_p2p_key operator_btc_key stake_hash stake_txid wots_keys) = true
is_setup (graph_nonces signer claim_txid nonces) = true
is_setup (graph_sigs signer claim_txid partial_sigs) = true
is_setup (aggregated_sigs sigs) = true
is_setup (root_nonce signer nonce) = true
is_setup (root_sig signer sig) = true
is_setup _ = false

pub setup_event-Gathers :
    (calls : Calls) (ev : ContractEvent) (sm sm' : ContractSm)
    → is_setup ev ≡ true
    → after (process_contract_event calls ev sm) ≡ some sm'
    → Gathers sm sm'
unfolding process_contract_event
setup_event-Gathers calls (deposit_setup signer btc_key stake_hash stake_txid wots_keys) sm sm' e
      h =
    process_deposit_setup-Gathers calls sm sm' signer btc_key stake_hash stake_txid wots_keys h
setup_event-Gathers calls (graph_nonces signer claim_txid nonces) sm sm' e h =
    (process_graph_nonces-Gathers calls sm sm' signer claim_txid nonces h).0
setup_event-Gathers calls (graph_sigs signer claim_txid partial_sigs) sm sm' e h =
    (process_graph_signatures-Gathers calls sm sm' signer claim_txid partial_sigs (
      sym (after-to_duties (process_graph_signatures calls signer claim_txid partial_sigs sm))
      ∙ h)).0
setup_event-Gathers calls (aggregated_sigs sigs) sm sm' e h =
    (process_aggregate_sigs-Gathers calls sm sm' sigs h).0
setup_event-Gathers calls (root_nonce signer nonce) sm sm' e h =
    (process_root_nonce-Gathers calls sm sm' signer nonce
      (sym (after-to_duties (process_root_nonce calls signer nonce sm)) ∙ h)).0
setup_event-Gathers calls (root_sig signer sig) sm sm' e h =
    (process_root_signature-Gathers calls sm sm' signer sig
      (sym (after-to_duties (process_root_signature calls signer sig sm)) ∙ h)).0
setup_event-Gathers calls (deposit_confirmation tx) sm sm' e h = cc
setup_event-Gathers calls (assignment entry stake_tx height) sm sm' e h = cc
setup_event-Gathers calls (peg_out_graph_confirmation tx height) sm sm' e h = cc
setup_event-Gathers calls (block height) sm sm' e h = cc
setup_event-Gathers calls claim_failure sm sm' e h = cc
setup_event-Gathers calls assertion_failure sm sm' e h = cc
