-- ===== src/Contract/SetupExamples.antt =====
-- The theorems on the setup of a contract, at a contract of two operators.
use strata_bridge.Prelude.{
  arith, zero, suc, done, ◌++◌, ℕ, Option, none, some, List, [], ◌∷◌, ◌≡◌, refl, get_elem?, length,
  ◌==◌,
}
use strata_bridge.Bitcoin.{Transaction, TxOut}
use strata_bridge.Prelude.BTreeMap.{get, insert, collect, collect_from, contains_key}
use strata_bridge.Operators
use strata_bridge.Operators.{
  OperatorTableEntry, find, add_entries, add_entry, cardinality, btc_keys, btc_key_to_p2p_key,
}
use strata_bridge.Operators.Consistent.{IsConsistent, new-IsConsistent}
use strata_bridge.PegOutGraph.{
  PegOutGraphInput, PegOutGraphSummary, summarize, musig_inpoints, musig_witnesses,
}
use strata_bridge.Contract.Types.{Deposited, Requested, ContractSm, requested, deposited}
use strata_bridge.Contract.Duties.{
  Calls, op, push_bytes, ContractEvent, deposit_setup, root_nonce, root_sig, accepted,
}
use strata_bridge.Contract.State
use strata_bridge.Contract.Chain.{set_state}
use strata_bridge.Contract.Setup.{
  deposit_request_txid, retrieve_graph, input_of, retrieve_all, setup_graphs, add_graphs,
  nonces_duty, setup_all, process_deposit_setup,
}
use strata_bridge.Contract.Root.{
  in_key_order, add_root_nonce, process_root_nonce, add_root_partial, check_root_partial,
  process_root_signature,
}
use strata_bridge.Contract.Keeps.{partials_of, request_of}
use strata_bridge.Contract.Progress.{run}
use strata_bridge.Contract.Machine.{
  new, clear_pog_cache, process_deposit_confirmation, process_contract_event,
}
use strata_bridge.Contract.Predicates.{op_return_data}
use strata_bridge.Contract.Request.{deposit_request_info, deposit_request_info-metadata}
use strata_bridge.Contract.Ready.{run-deposited}
use strata_bridge.Contract.Signed.{run-publish_deposit}
use strata_bridge.Contract.Fixtures.{calls, cfg, tx_of, at_state, requested_state}

abbrev entries : List OperatorTableEntry
entries = record { idx = 0; p2p = 10; btc = 20 } ∷ record { idx = 1; p2p = 11; btc = 21 } ∷ []

abbrev start : ContractSm
start = at_state 50 (requested requested_state)

abbrev setups : List ContractEvent
setups = deposit_setup 11 21 0 200 0 ∷ deposit_setup 10 20 0 100 0 ∷ []

abbrev signatures : List ContractEvent
signatures = root_nonce 10 5 ∷ root_nonce 11 6 ∷ root_sig 11 8 ∷ []

abbrev or_start : Option ContractSm → ContractSm
or_start none = start
or_start (some sm) = sm

abbrev or_requested : Option Requested → Requested
or_requested none = requested_state
or_requested (some s) = s

abbrev ready : ContractSm
ready = or_start (run calls setups start)

abbrev ready_state : Requested
ready_state = or_requested (request_of ready.state.state)

run-deposited_example :
    (d : Deposited) × (input : PegOutGraphInput) × (summary : PegOutGraphSummary)
    × (process_deposit_confirmation calls (tx_of 50) ready
        ≡ accepted none (clear_pog_cache (set_state ready (deposited d))))
    × (d.claim_txids ≡ ready_state.claim_txids)
    × (get 10 ready_state.peg_out_graph_inputs ≡ some input)
    × (get 101 ready_state.peg_out_graph_summaries ≡ some summary)
    × (get 101 d.peg_out_graphs ≡ some (input, summary))
unfolding run process_contract_event process_deposit_setup setup_all setup_graphs retrieve_all
    retrieve_graph add_graphs summarize nonces_duty musig_inpoints musig_witnesses input_of new
    State.new deposit_request_txid get insert collect collect_from State.find_operator
run-deposited_example =
    run-deposited calls cfg 50 53 setups start ready ready_state (tx_of 50) 10 101 refl refl refl
      (refl, (refl, tt)) refl refl

abbrev signed : ContractSm
signed = or_start (run calls signatures start)

abbrev sigs : List ℕ
sigs = 7 ∷ 8 ∷ []

abbrev final : ContractSm
final = or_start (run calls (root_sig 10 7 ∷ []) signed)

consistent : IsConsistent signed.cfg.operator_table
unfolding run process_contract_event process_root_nonce add_root_nonce process_root_signature
    check_root_partial add_root_partial in_key_order deposit_request_txid get insert contains_key
    find add_entries add_entry Operators.new
consistent = (new-IsConsistent entries (λ e. e.idx == 1) cfg.operator_table refl).0

run-publish_deposit_example :
    (cfg.deposit_tx ≡ signed.cfg.deposit_tx)
    × (length sigs ≡ cardinality signed.cfg.operator_table)
    × ((i btc p2p : ℕ)
        → get_elem? (btc_keys signed.cfg.operator_table) i ≡ some btc
        → btc_key_to_p2p_key signed.cfg.operator_table btc ≡ some p2p
        → get_elem? sigs i ≡ get p2p (partials_of final.state.state))
unfolding run process_contract_event process_root_nonce add_root_nonce process_root_signature
    check_root_partial add_root_partial in_key_order new State.new deposit_request_txid get insert
run-publish_deposit_example =
    run-publish_deposit calls cfg 50 53 signatures start signed final 10 7 cfg.deposit_tx sigs 2
      refl refl consistent refl

abbrev bytes : (n : ℕ) → List ℕ
bytes zero = []
bytes (suc n) = 7 ∷ bytes n

abbrev script_calls : Calls
script_calls = record calls {
  instructions = λ script. some (op 106) ∷ some (push_bytes script) ∷ [];
}

abbrev user_key : List ℕ
user_key = bytes 32

abbrev first_out : TxOut
first_out = record { value = 101; script_pubkey = 5 ∷ 9 ∷ [] }

abbrev second_out : TxOut
second_out = record { value = 0; script_pubkey = user_key ++ (1 ∷ 2 ∷ []) }

abbrev request_tx : Transaction
request_tx = record {
  version = 2;
  lock_time = 60;
  input = [];
  output = first_out ∷ second_out ∷ [];
}

deposit_request_info-metadata_example :
    deposit_request_info script_calls
      (λ key. some 9)
      (λ key delay. 5 ∷ key ∷ [])
      (length {A = ℕ} (1 ∷ 2 ∷ []))
      cfg.peg_out_graph_params
      3
      request_tx
    ≡ done (
        some (record {
          deposit_request_outpoint = record { txid = 60; vout = 0 };
          stake_index = 3;
          ee_address = 1 ∷ 2 ∷ [];
          total_amount = 101;
          x_only_public_key = 9;
          original_script_pubkey = 5 ∷ 9 ∷ [];
        }))
unfolding op_return_data
deposit_request_info-metadata_example =
    deposit_request_info-metadata script_calls (λ key. some 9) (λ key delay. 5 ∷ key ∷ [])
      cfg.peg_out_graph_params 3 request_tx first_out second_out user_key (1 ∷ 2 ∷ []) refl
      (omega arith) refl refl refl
