-- ===== src/StakeChain/Examples.antt =====
-- The theorems on stake chains at two operators and concrete messages.
use strata_bridge.Prelude.{
  ℕ, ◌+◌, none, some, List, [], ◌∷◌, ◌≡◌, ◌≢◌, refl, arith, ok, err, ◌⊎◌, true, get_elem?,
}
use strata_bridge.Prelude.BTreeMap.{get, insert, contains_key}
use strata_bridge.Bitcoin.{OutPoint, TxIn}
use mathlib.Core.Option
use strata_bridge.Operators.{OperatorTable}
use strata_bridge.StakeChain.{
  StakeTxData, StakeChainInputs, StakeChainParams, Connectors, StakeTx, stake_vout, txid_of,
  new as new_chain, advance, new_head, new_tail,
}
use strata_bridge.StakeChain.Chain.{stake_at, chain_at, new-stake_at, new_links}
use strata_bridge.StakeChain.Machine.{
  StakeChainSm, DepositSetup, new, stake_txid, restore, process_setup, process_exchange, stake_tx,
  first_stake_tx, later_stake_tx, cache_txid, stake_tx_data, stake_tx_not_found, missing_stake_txid,
}
use strata_bridge.StakeChain.Coherent.{IsCoherent, chain_txid}
use strata_bridge.StakeChain.Cache.{grow}
use strata_bridge.StakeChain.Setup.{
  Message, exchange, setup, run, process_message, run-new-IsCoherent, process_setup-chain_txid,
  process_setup_out_of_order,
}
use strata_bridge.StakeChain.Restore.{run-restore, restore_shifted}

abbrev first_txid : List TxIn → ℕ
first_txid [] = 0
first_txid (i ∷ ins) = i.previous_output.txid

abbrev connectors : Connectors
connectors = record {
  compute_txid = λ tx. 100 + first_txid tx.input;
  kickoff = λ pk. 1 ∷ pk ∷ [];
  hashlock_payout = λ hash. 2 ∷ hash ∷ [];
  stake = λ pubkey hash. 3 ∷ pubkey ∷ hash ∷ [];
  cpfp = λ pubkey. 4 ∷ pubkey ∷ [];
  minimal_non_dust = λ script_pubkey. 330;
  spend_info = λ pubkey hash. pubkey + hash;
}

abbrev params : StakeChainParams
params = record { stake_amount = 100000; burn_amount = 1000; delta = 6; slash_stake_count = 24 }

abbrev table : OperatorTable
table = record {
  pov = 1;
  idx_key = (0, (10, 20)) ∷ (1, (11, 21)) ∷ [];
  p2p_key = (10, (0, 20)) ∷ (11, (1, 21)) ∷ [];
  btc_key = (20, (0, 10)) ∷ (21, (1, 11)) ∷ [];
}

abbrev deposit : (index funds : ℕ) → DepositSetup
deposit index funds = record {
  index = index;
  hash = funds + 1;
  funding_outpoint = record { txid = funds; vout = 0 };
  operator_pk = 9;
  wots_pks = record { withdrawal_fulfillment = funds + 2; groth16 = 0 };
}

abbrev pre_stake : OutPoint
pre_stake = record { txid = 5; vout = 1 }

abbrev messages : List Message
messages =
    exchange 10 pre_stake
    ∷ exchange 11 pre_stake
    ∷ setup 11 (deposit 1 600)
    ∷ setup 10 (deposit 0 700)
    ∷ setup 11 (deposit 0 800)
    ∷ setup 11 (deposit 1 900)
    ∷ []

abbrev inputs : StakeChainInputs
inputs = record {
  stake_inputs = (0, stake_tx_data (deposit 0 700)) ∷ (1, stake_tx_data (deposit 1 800)) ∷ [];
  pre_stake_outpoint = pre_stake;
}

abbrev started : StakeChainSm
started = record {
  network = 0;
  params = params;
  operator_table = table;
  stake_chains = (10, inputs) ∷ [];
  stake_txids = [];
}

new-stake_at_example :
    chain_at connectors params (new_chain connectors params inputs) 1
    ≡ stake_at connectors params inputs 1
new-stake_at_example = new-stake_at connectors params inputs 1 (omega arith)

run_txids : stake_txid (run connectors messages (new 0 table params)) 11 1 ≡ some 1000
unfolding run process_message process_setup process_exchange new get insert stake_tx first_stake_tx
    later_stake_tx new_head new_tail cache_txid
run_txids = refl

run-new-IsCoherent_example : IsCoherent connectors (run connectors messages (new 0 table params))
run-new-IsCoherent_example = run-new-IsCoherent connectors 0 table params messages

known_operators :
    (j : ℕ)
    → contains_key j table.p2p_key ≡ true
    → get j (run connectors messages (new 0 table params)).stake_chains ≢ none
unfolding contains_key run process_message process_setup process_exchange new get insert stake_tx
    first_stake_tx later_stake_tx new_head new_tail cache_txid
known_operators j h = λ absent. ground arith

run-restore_example :
    let sm = run connectors messages (new 0 table params) in
    stake_txid (restore connectors sm.network sm.operator_table sm.params sm.stake_chains) 11 1
    ≡ some 1000
unfolding contains_key run process_message process_setup process_exchange new get insert stake_tx
    first_stake_tx later_stake_tx new_head new_tail cache_txid
run-restore_example =
    run-restore connectors 0 table params messages 11 1 1000 (omega arith) known_operators refl refl

restore_shifted_example :
    stake_txid (restore connectors 0 table params ((11, inputs) ∷ [])) 10 1
    ≡ chain_txid connectors params ((11, inputs) ∷ []) 11 1
unfolding get
restore_shifted_example =
    restore_shifted connectors 0 1 params ((11, inputs) ∷ []) (10, (0, 20)) (11, (1, 21)) []
      table.idx_key table.btc_key inputs 1 (omega arith) refl refl (omega arith)

same_pubkey :
    (i : ℕ) (input : StakeTxData)
    → get i inputs.stake_inputs ≡ some input
    → input.operator_pubkey ≡ 9
unfolding get
same_pubkey i input h = ground arith

abbrev second_tx : StakeTx
second_tx =
    advance connectors params
      (new_head connectors params 701 702 pre_stake (record { txid = 700; vout = 0 }) 9)
      (stake_tx_data (deposit 1 800))

new_links_example :
    (prev : StakeTx) × (chain_at connectors params (new_chain connectors params inputs) 0
      ≡ some prev)
    × (Option.map (λ (i : TxIn). i.previous_output) (get_elem? second_tx.unsigned_tx.input 1)
        ≡ some (record { txid = txid_of connectors params prev; vout = stake_vout }))
    × (second_tx.prev_stake_out ≢ none)
    × (get_elem? prev.unsigned_tx.output stake_vout ≡ second_tx.prev_stake_out)
unfolding new_chain get
new_links_example = new_links connectors params inputs 9 0 second_tx (omega arith) same_pubkey refl

coherent : IsCoherent connectors (run connectors (exchange 10 pre_stake ∷ []) (new 0 table params))
coherent = run-new-IsCoherent connectors 0 table params (exchange 10 pre_stake ∷ [])

abbrev exchanged : StakeChainSm
exchanged = run connectors (exchange 10 pre_stake ∷ []) (new 0 table params)

process_setup-chain_txid_example :
    let (result, sm') = process_setup connectors 10 (deposit 0 700) exchanged in
    (txid : ℕ) × (result ≡ ok (some txid))
    × (stake_txid sm' 10 0 ≡ some txid)
    × (chain_txid connectors sm'.params sm'.stake_chains 10 0 ≡ some txid)
unfolding run process_message process_exchange new get insert
process_setup-chain_txid_example =
    process_setup-chain_txid connectors 10 (deposit 0 700) exchanged coherent refl (λ e. cc) tt

abbrev fresh_inputs : StakeChainInputs
fresh_inputs = record { stake_inputs = []; pre_stake_outpoint = pre_stake }

process_setup_out_of_order_example :
    let (result, sm') = process_setup connectors 10 (deposit 1 700) exchanged in
    ((result ≡ err (stake_tx_not_found 10 1)) ⊎ (result ≡ err (missing_stake_txid 10 0)))
    × (sm' ≡ grow 10 1 (stake_tx_data (deposit 1 700)) fresh_inputs exchanged)
unfolding run process_message process_exchange new get insert
process_setup_out_of_order_example =
    process_setup_out_of_order connectors 10 0 (deposit 1 700) exchanged fresh_inputs coherent refl
      refl refl
