-- ===== src/Contract/Setup.antt =====
-- The setup of a contract's graphs (process_deposit_setup of
-- crates/duty-tracker/src/contract_state_machine.rs), and the cache of graphs.
use strata_bridge.Prelude.{
  ℕ, true, false, not, Option, none, some, List, [], ◌∷◌, map, ◌==◌, if◌then◌else◌, first?, length,
}
use strata_bridge.Prelude.BTreeMap.{BTreeMap, get, insert, values, collect}
use strata_bridge.Operators.{cardinality}
use strata_bridge.StakeChain.{stake_vout, withdrawal_fulfillment_vout}
use strata_bridge.PegOutGraph.{
  PegOutGraphInput, PegOutGraph, summarize, musig_inpoints, musig_witnesses,
}
use strata_bridge.Contract.Types.{ContractCfg, Requested, ContractSm, requested, aborted}
use strata_bridge.Contract.Duties.{
  OperatorDuty, Outcomes, Calls, publish_graph_nonces, unexpected_state, accepted, rejected,
  panicked,
}
use strata_bridge.Contract.Chain.{set_state}

-- `input[0].previous_output.txid` of the deposit transaction; `none` is the panic of the index.
unfoldable pub deposit_request_txid : ContractCfg → Option ℕ
deposit_request_txid cfg = elim (first? cfg.deposit_tx.unsigned_tx.input) [
  | none ↦ none
  | some txin ↦ some txin.previous_output.txid
]

unfoldable pub retrieve_graph : Calls → PegOutGraphInput → ContractSm → PegOutGraph × ContractSm
retrieve_graph calls input sm =
    let stake_txid = input.stake_outpoint.txid in
    elim (get stake_txid sm.pog) [
      | some pog ↦ (pog, sm)
      | none ↦
          let pog = calls.generate sm.cfg input in
          (pog, record sm { pog = insert stake_txid pog sm.pog })
    ]

-- The entry of a signer, from the one that it had: `and_modify(..).or_insert_with(..)`.
unfoldable pub input_of :
    (operator_pubkey stake_hash stake_txid wots_keys : ℕ)
    → Option PegOutGraphInput
    → PegOutGraphInput
input_of operator_pubkey stake_hash stake_txid wots_keys (some old) = record old {
  stake_outpoint = record { txid = stake_txid; vout = stake_vout };
  withdrawal_fulfillment_outpoint = record {
    txid = stake_txid;
    vout = withdrawal_fulfillment_vout;
  };
}
input_of operator_pubkey stake_hash stake_txid wots_keys none = record {
  stake_outpoint = record { txid = stake_txid; vout = stake_vout };
  withdrawal_fulfillment_outpoint = record {
    txid = stake_txid;
    vout = withdrawal_fulfillment_vout;
  };
  stake_hash = stake_hash;
  wots_public_keys = wots_keys;
  operator_pubkey = operator_pubkey;
}

abbrev pub add_input :
    (signer operator_pubkey stake_hash stake_txid wots_keys : ℕ)
    → BTreeMap PegOutGraphInput
    → BTreeMap PegOutGraphInput
add_input signer operator_pubkey stake_hash stake_txid wots_keys inputs =
    insert signer (input_of operator_pubkey stake_hash stake_txid wots_keys (get signer inputs))
      inputs

-- The graphs of all operators, one thread for each, or one after the other through the cache.
abbrev pub generate_all : Calls → ContractCfg → BTreeMap PegOutGraphInput → List (ℕ × PegOutGraph)
generate_all calls cfg [] = []
generate_all calls cfg ((signer, input) ∷ inputs) =
    (signer, calls.generate cfg input) ∷ generate_all calls cfg inputs

unfoldable pub retrieve_all :
    Calls → BTreeMap PegOutGraphInput → ContractSm → List (ℕ × PegOutGraph) × ContractSm
retrieve_all calls [] sm = ([], sm)
retrieve_all calls ((signer, input) ∷ inputs) sm =
    let (pog, sm') = retrieve_graph calls input sm in
    let (pogs, sm'') = retrieve_all calls inputs sm' in ((signer, pog) ∷ pogs, sm'')

unfoldable pub setup_graphs :
    Calls → BTreeMap PegOutGraphInput → ContractSm → BTreeMap PegOutGraph × ContractSm
setup_graphs calls inputs sm = elim calls.multi_thread_graph_gen [
  | true ↦ (collect (generate_all calls sm.cfg inputs), sm)
  | false ↦ let (pogs, sm') = retrieve_all calls inputs sm in (collect pogs, sm')
]

-- The loop over the graphs; `none` is the panic of `summarize`.
unfoldable pub add_graphs : Calls → BTreeMap PegOutGraph → Requested → Option Requested
add_graphs calls [] s = some s
add_graphs calls ((signer, graph) ∷ graphs) s = elim (summarize calls.compute_txid graph) [
  | none ↦ none
  | some summary ↦ add_graphs calls graphs (record s {
    peg_out_graph_summaries = insert summary.claim_txid summary s.peg_out_graph_summaries;
    claim_txids = insert signer summary.claim_txid s.claim_txids;
    graph_nonces = insert summary.claim_txid [] s.graph_nonces;
    graph_partials = insert summary.claim_txid [] s.graph_partials;
  })
]

unfoldable pub nonces_duty : Calls → PegOutGraph → OperatorDuty
nonces_duty calls graph =
    publish_graph_nonces (calls.compute_txid graph.claim_tx)
      (musig_inpoints calls.compute_txid graph) (musig_witnesses graph) none

-- What follows once the inputs of all operators are there.
unfoldable pub setup_all : Calls → Requested → ContractSm → Outcomes
setup_all calls s sm =
    let (graphs, sm') = setup_graphs calls s.peg_out_graph_inputs sm in
    elim (add_graphs calls graphs s) [
      | none ↦ panicked
      | some s' ↦ accepted (map (nonces_duty calls) (values graphs)) (set_state sm' (requested s'))
    ]

unfoldable pub process_deposit_setup :
    Calls → (signer operator_pubkey stake_hash stake_txid wots_keys : ℕ) → ContractSm → Outcomes
process_deposit_setup calls signer operator_pubkey stake_hash stake_txid wots_keys sm =
    elim sm.state.state [
      | requested s ↦
          let s' : Requested = record s {
            peg_out_graph_inputs =
                add_input signer operator_pubkey stake_hash stake_txid wots_keys
                  s.peg_out_graph_inputs;
          } in
          if not (length s'.peg_out_graph_inputs == cardinality sm.cfg.operator_table)
          then accepted [] (set_state sm (requested s'))
          else setup_all calls s' sm
      | aborted ↦ accepted [] sm
      | _ ↦ rejected unexpected_state sm
    ]
