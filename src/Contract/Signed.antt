-- ===== src/Contract/Signed.antt =====
-- The signatures that a deposit is published with (process_root_signature of
-- crates/duty-tracker/src/contract_state_machine.rs).
use strata_bridge.Prelude.{
  ℕ, true, some, List, [], ◌∷◌, ◌≡◌, ◌⊎◌, inl, inr, refl, sym, ◌∙◌, arith, Option-cases, length,
  get_elem?,
}
use strata_bridge.Prelude.BTreeMap.{
  BTreeMap, get, insert, keys, contains_key, IsSorted, get-insert, insert-IsSorted,
}
use strata_bridge.Prelude.Cover.{IsWithin, IsWithin-covers, length-keys}
use strata_bridge.Operators.{OperatorTable, cardinality, btc_keys, btc_key_to_p2p_key}
use strata_bridge.Operators.Consistent.{IsConsistent}
use strata_bridge.PegOutGraph.{PegOutGraph, summarize}
use strata_bridge.Contract.Types.{ContractCfg, DepositTx, Requested, ContractSm}
use strata_bridge.Contract.Duties.{
  ContractEvent, deposit_setup, graph_nonces, graph_sigs, aggregated_sigs, root_nonce, root_sig,
  assignment, deposit_confirmation, peg_out_graph_confirmation, block, claim_failure,
  assertion_failure, Calls, publish_deposit, accepted,
}
use strata_bridge.Contract.Setup.{
  add_graphs, setup_graphs, setup_all, process_deposit_setup, input_of,
}
use strata_bridge.Contract.Partials.{process_graph_signatures}
use strata_bridge.Contract.Root.{
  in_key_order, process_root_nonce, process_root_signature, check_root_partial, add_root_partial,
}
use strata_bridge.Contract.Keeps.{partials_of, request_of}
use strata_bridge.Contract.Gathering.{
  process_graph_nonces-Gathers, process_graph_signatures-Gathers, process_aggregate_sigs-Gathers,
  process_root_nonce-Gathers,
}
use strata_bridge.Contract.Confirms.{after, after-to_duties}
use strata_bridge.Contract.Progress.{run, later_event-request_of, process_contract_event-Progress}
use strata_bridge.Contract.State
use strata_bridge.Contract.Machine.{new, process_contract_event}
use strata_bridge.Contract.KeyOrder.{
  HasSent, length-in_key_order, get_elem?-in_key_order, contains-keys,
}

-- The signatures for the deposit are those of operators of the table, in the order of their keys.
pub record HasSigners (sm : ContractSm) : Type 0 where
  pub sorted : IsSorted (partials_of sm.state.state)
  pub within : IsWithin (partials_of sm.state.state) (keys sm.cfg.operator_table.p2p_key)

add_graphs-root_partials :
    (calls : Calls) (graphs : BTreeMap PegOutGraph) (s s' : Requested)
    → add_graphs calls graphs s ≡ some s'
    → s'.root_partials ≡ s.root_partials
unfolding add_graphs
add_graphs-root_partials calls [] s s' h = ground arith
add_graphs-root_partials calls ((signer, graph) ∷ graphs) s s' h =
    elim (Option-cases (summarize calls.compute_txid graph)) [
      | inl e ↦ absurd (ground arith)
      | inr (summary, e) ↦
          add_graphs-root_partials calls graphs
            (record s {
              peg_out_graph_summaries = insert summary.claim_txid summary s.peg_out_graph_summaries;
              claim_txids = insert signer summary.claim_txid s.claim_txids;
              graph_nonces = insert summary.claim_txid [] s.graph_nonces;
              graph_partials = insert summary.claim_txid [] s.graph_partials;
            })
            s' (ground arith)
    ]

process_deposit_setup-partials :
    (calls : Calls) (signer operator_pubkey stake_hash stake_txid wots_keys : ℕ)
    (sm sm' : ContractSm)
    → after (process_deposit_setup calls signer operator_pubkey stake_hash stake_txid wots_keys sm)
      ≡ some sm'
    → partials_of sm'.state.state ≡ partials_of sm.state.state
unfolding process_deposit_setup setup_all
process_deposit_setup-partials calls signer operator_pubkey stake_hash stake_txid wots_keys sm sm'
      h =
    elim (Option-cases (request_of sm.state.state)) [
      | inl e ↦ ground arith
      | inr (s, e) ↦
          let input =
            input_of operator_pubkey stake_hash stake_txid wots_keys
              (get signer s.peg_out_graph_inputs) in
          let s' : Requested = record s {
            peg_out_graph_inputs = insert signer input s.peg_out_graph_inputs;
          } in
          let graphs = (setup_graphs calls s'.peg_out_graph_inputs sm).0 in
          elim (Option-cases (add_graphs calls graphs s')) [
            | inl f ↦ ground arith
            | inr (s'', f) ↦ ground (arith, add_graphs-root_partials calls graphs s' s'' f)
          ]
    ]

process_root_signature-partials :
    (calls : Calls) (signer sig : ℕ) (sm sm' : ContractSm)
    → after (process_root_signature calls signer sig sm) ≡ some sm'
    → (partials_of sm'.state.state ≡ partials_of sm.state.state)
      ⊎ ((partials_of sm'.state.state ≡ insert signer sig (partials_of sm.state.state))
          × (contains_key signer sm.cfg.operator_table.p2p_key ≡ true))
unfolding process_root_signature check_root_partial add_root_partial contains_key
process_root_signature-partials calls signer sig sm sm' h = ground arith

process_contract_event-partials :
    (calls : Calls) (ev : ContractEvent) (sm sm' : ContractSm)
    → after (process_contract_event calls ev sm) ≡ some sm'
    → (partials_of sm'.state.state ≡ partials_of sm.state.state)
      ⊎ ((partials_of sm'.state.state ≡ [])
          ⊎ ((signer : ℕ) × (sig : ℕ) × (partials_of sm'.state.state
                ≡ insert signer sig (partials_of sm.state.state))
              × (contains_key signer sm.cfg.operator_table.p2p_key ≡ true)))
unfolding process_contract_event
process_contract_event-partials calls (deposit_setup signer btc_key stake_hash stake_txid wots_keys)
      sm sm' h =
    inl
      (process_deposit_setup-partials calls signer btc_key stake_hash stake_txid wots_keys sm sm' h)
process_contract_event-partials calls (graph_nonces signer claim_txid nonces) sm sm' h =
    inl (process_graph_nonces-Gathers calls sm sm' signer claim_txid nonces h).2
process_contract_event-partials calls (graph_sigs signer claim_txid partial_sigs) sm sm' h =
    inl
      (process_graph_signatures-Gathers calls sm sm' signer claim_txid partial_sigs (
        sym (after-to_duties (process_graph_signatures calls signer claim_txid partial_sigs sm))
        ∙ h)).2
process_contract_event-partials calls (aggregated_sigs sigs) sm sm' h =
    inl (process_aggregate_sigs-Gathers calls sm sm' sigs h).2
process_contract_event-partials calls (root_nonce signer nonce) sm sm' h =
    inl
      (process_root_nonce-Gathers calls sm sm' signer nonce
        (sym (after-to_duties (process_root_nonce calls signer nonce sm)) ∙ h)).2
process_contract_event-partials calls (root_sig signer sig) sm sm' h =
    elim (process_root_signature-partials calls signer sig sm sm'
      (sym (after-to_duties (process_root_signature calls signer sig sm)) ∙ h)) [
        | inl same ↦ inl same
        | inr (added, known) ↦ inr (inr (signer, sig, added, known))
      ]
process_contract_event-partials calls (deposit_confirmation tx) sm sm' h =
    ground (arith, later_event-request_of calls (deposit_confirmation tx) sm sm' refl h)
process_contract_event-partials calls (assignment entry stake_tx height) sm sm' h =
    ground (arith, later_event-request_of calls (assignment entry stake_tx height) sm sm' refl h)
process_contract_event-partials calls (peg_out_graph_confirmation tx height) sm sm' h =
    ground
      (arith, later_event-request_of calls (peg_out_graph_confirmation tx height) sm sm' refl h)
process_contract_event-partials calls (block height) sm sm' h =
    ground (arith, later_event-request_of calls (block height) sm sm' refl h)
process_contract_event-partials calls claim_failure sm sm' h =
    ground (arith, later_event-request_of calls claim_failure sm sm' refl h)
process_contract_event-partials calls assertion_failure sm sm' h =
    ground (arith, later_event-request_of calls assertion_failure sm sm' refl h)

process_contract_event-HasSigners :
    (calls : Calls) (ev : ContractEvent) (sm sm' : ContractSm)
    → after (process_contract_event calls ev sm) ≡ some sm'
    → HasSigners sm
    → HasSigners sm'
unfolding contains_key get
process_contract_event-HasSigners calls ev sm sm' h w =
    let (moved, cfg) = process_contract_event-Progress calls ev sm sm' h in
    elim (process_contract_event-partials calls ev sm sm' h) [
      | inl same ↦ record { sorted = rw same w.sorted; within = rw (same, cfg) w.within }
      | inr (inl none') ↦ record { sorted = rw none' tt; within = rw none' (λ k h. ground arith) }
      | inr (inr (signer, sig, added, known)) ↦ record {
        sorted = rw added (insert-IsSorted signer sig (partials_of sm.state.state) w.sorted);
        within =
            rw (added, cfg)
              (λ k h. ground (
                arith,
                w.within k,
                get-insert signer k sig (partials_of sm.state.state),
                contains-keys sm.cfg.operator_table.p2p_key k,
              ));
      }
    ]

run-HasSigners :
    (calls : Calls) (evs : List ContractEvent) (sm sm' : ContractSm)
    → HasSigners sm
    → run calls evs sm ≡ some sm'
    → HasSigners sm'
unfolding run
run-HasSigners calls [] sm sm' w h = let e : sm' ≡ sm = ground arith in rw e w
run-HasSigners calls (ev ∷ evs) sm sm' w h =
    elim (Option-cases (after (process_contract_event calls ev sm))) [
      | inl crash ↦ absurd (ground arith)
      | inr (mid, e) ↦
          run-HasSigners calls evs mid sm' (process_contract_event-HasSigners calls ev sm mid e w)
            (ground arith)
    ]

new-HasSigners :
    (cfg : ContractCfg) (height deadline : ℕ) (sm : ContractSm)
    → new cfg height deadline ≡ some sm
    → HasSigners sm
unfolding new State.new get contains_key
new-HasSigners cfg height deadline sm h =
    let e : partials_of sm.state.state ≡ [] = ground arith in
    record { sorted = rw e tt; within = rw e (λ k h. ground arith) }

root_signature_published :
    (calls : Calls) (signer sig : ℕ) (sm sm' : ContractSm) (deposit_tx : DepositTx)
    (partial_sigs : List ℕ) (aggnonce : ℕ)
    → process_root_signature calls signer sig sm
      ≡ accepted (some (publish_deposit deposit_tx partial_sigs aggnonce)) sm'
    → (deposit_tx ≡ sm.cfg.deposit_tx)
      × (partial_sigs
          ≡ in_key_order sm.cfg.operator_table
              (partials_of sm'.state.state)
              (btc_keys sm.cfg.operator_table))
      × (length (partials_of sm'.state.state) ≡ cardinality sm.cfg.operator_table)
unfolding process_root_signature check_root_partial add_root_partial
root_signature_published calls signer sig sm sm' deposit_tx partial_sigs aggnonce h = ground arith

all_sent :
    (table : OperatorTable) (partials : BTreeMap ℕ)
    → IsConsistent table
    → IsSorted partials
    → IsWithin partials (keys table.p2p_key)
    → length partials ≡ cardinality table
    → HasSent table partials table.idx_key
unfolding contains_key
all_sent table partials c s within n = λ idx p2p btc at.
    let at_p2p = c.idx_p2p idx p2p btc at in
    let at_btc = c.p2p_btc idx p2p btc at_p2p in
    (
      ground arith,
      λ absent. ground (
        arith,
        IsWithin-covers (keys table.p2p_key) partials p2p s within
            (ground (arith, c.same_p2p, length-keys table.p2p_key)),
        contains-keys table.p2p_key p2p,
      ),
    )

-- A new contract, whose operator table is consistent, takes any events; then a signature makes this
-- operator publish the deposit. It publishes the deposit transaction of the configuration with one
-- signature for each operator, in the order of the operators' bitcoin keys, and each is the signature
-- that the contract holds for the operator.
pub run-publish_deposit :
    (calls : Calls) (cfg : ContractCfg) (height deadline : ℕ) (evs : List ContractEvent)
    (start sm sm' : ContractSm) (signer sig : ℕ) (deposit_tx : DepositTx) (partial_sigs : List ℕ)
    (aggnonce : ℕ)
    → new cfg height deadline ≡ some start
    → run calls evs start ≡ some sm
    → IsConsistent sm.cfg.operator_table
    → process_root_signature calls signer sig sm
      ≡ accepted (some (publish_deposit deposit_tx partial_sigs aggnonce)) sm'
    → (deposit_tx ≡ sm.cfg.deposit_tx)
      × (length partial_sigs ≡ cardinality sm.cfg.operator_table)
      × ((i btc p2p : ℕ)
          → get_elem? (btc_keys sm.cfg.operator_table) i ≡ some btc
          → btc_key_to_p2p_key sm.cfg.operator_table btc ≡ some p2p
          → get_elem? partial_sigs i ≡ get p2p (partials_of sm'.state.state))
unfolding process_contract_event
run-publish_deposit calls cfg height deadline evs start sm sm' signer sig deposit_tx partial_sigs
      aggnonce started h c published =
    let w =
      run-HasSigners calls evs start sm (new-HasSigners cfg height deadline start started) h in
    let left : after (process_contract_event calls (root_sig signer sig) sm) ≡ some sm' =
      rw published refl in
    let w' = process_contract_event-HasSigners calls (root_sig signer sig) sm sm' left w in
    let same = (process_contract_event-Progress calls (root_sig signer sig) sm sm' left).1 in
    let (tx, sigs, n) =
      root_signature_published calls signer sig sm sm' deposit_tx partial_sigs aggnonce published in
    let partials = partials_of sm'.state.state in
    let table = sm.cfg.operator_table in
    let sent = all_sent table partials c w'.sorted (rw (sym same) w'.within) n in
    (
      tx,
      rw sigs (length-in_key_order table partials table.idx_key 0 c.sorted.0 sent),
      λ i btc p2p at known. rw sigs (
          get_elem?-in_key_order table partials table.idx_key 0 i btc p2p c.sorted.0 sent at known),
    )
