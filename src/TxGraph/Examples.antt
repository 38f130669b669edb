-- ===== src/TxGraph/Examples.antt =====
-- The theorems on the claim and the assert chain at a concrete set of scripts
-- (crates/tx-graph/src/transactions/assert_chain.rs).
use strata_bridge.Prelude.{
  ℕ, zero, suc, ◌+◌, ◌*◌, if◌then◌else◌, leb, true, none, some, List, [], ◌∷◌, ◌++◌, map, length,
  first?, All, ◌≡◌, refl, arith,
}
use strata_bridge.Prelude.Array.{to_list, from_const, from_fn, take_array}
use strata_bridge.Bitcoin.{OutPoint, Transaction}
use strata_bridge.TxGraph.{
  Scripts, Psbt, ClaimTx, AssertChain, claim_tx, claim_paying, pre_assert_tx, outpoint,
  post_assert_tx, assert_chain, assert_data_tx, txid_of, first_output_of,
}
use strata_bridge.TxGraph.Balance.{
  IsTaproot, IsBalanced, claim_and_assert_chain-IsBalanced, claim_tx-paying, chain_of,
}
use strata_bridge.TxGraph.Links.{
  previous_outputs, output_at, assert_chain-assert_data, assert_chain-post_assert,
}
use strata_bridge.TxGraph.Payouts.{
  PayoutScripts, payout_optimistic_tx, payout_tx, slash_stake_tx, pay_out, paying, slashing, txout,
  payout_optimistic_tx_ins, payout_tx_ins, payout_optimistic_prevouts, payout_prevouts, sum_amounts,
}
use strata_bridge.TxGraph.Graph.{
  PegOutGraph, GraphContext, generate, assemble, slash_all, payout_optimistic_data, payout_data,
  slash_stake_data,
}
use strata_bridge.TxGraph.Graph.Wired.{IsWired, generate-IsWired}
use strata_bridge.TxGraph.Graph.Total.{generate_total}
use strata_bridge.PegOutGraph.{PegOutGraphInput}

abbrev taproot_script : ℕ → List ℕ
taproot_script key = 81 ∷ 32 ∷ to_list (from_const 32 key)

abbrev id_of_first_input : Transaction → ℕ
id_of_first_input tx = elim (first? tx.input) [
  | none ↦ 0
  | some txin ↦ txin.previous_output.txid * 100 + txin.previous_output.vout + 1
]

abbrev scripts : Scripts
scripts = record {
  connector_k = taproot_script 1;
  connector_c0 = taproot_script 2;
  connector_c1 = taproot_script 3;
  connector_n_of_n = taproot_script 4;
  connector_a3 = taproot_script 5;
  connector_cpfp = taproot_script 6;
  connector_a256_batch_1 = from_const 3 (taproot_script 7);
  connector_a256_batch_2 = from_const 0 (taproot_script 8);
  connector_a_hash_batch_1 = from_const 33 (taproot_script 9);
  connector_a_hash_batch_2 = from_const 3 (taproot_script 10);
  pre_assert_timelock = 144;
  minimal_non_dust = λ script. (length script + 76) * 3;
  compute_txid = id_of_first_input;
}

All-const :
    (n : ℕ) (script : List ℕ) (rest : List (List ℕ))
    → scripts.minimal_non_dust script ≡ 330
    → All (λ s. scripts.minimal_non_dust s ≡ 330) rest
    → All (λ s. scripts.minimal_non_dust s ≡ 330) (to_list (from_const n script) ++ rest)
All-const zero script rest e h = h
All-const (suc n) script rest e h = (e, All-const n script rest e h)

abbrev last_scripts : List (List ℕ)
last_scripts = to_list scripts.connector_a_hash_batch_2

abbrev hash_scripts : List (List ℕ)
hash_scripts = to_list scripts.connector_a_hash_batch_1 ++ last_scripts

All-last_scripts : All (λ s. scripts.minimal_non_dust s ≡ 330) last_scripts
All-last_scripts = (refl, (refl, (refl, tt)))

taproot : IsTaproot scripts
taproot = record {
  c1 = refl;
  n_of_n = refl;
  cpfp = refl;
  committed =
      All-const 3 (taproot_script 7) hash_scripts refl
        (All-const 33 (taproot_script 9) last_scripts refl All-last_scripts);
}

abbrev stake : OutPoint
stake = record { txid = 5; vout = 0 }

abbrev claim : ClaimTx
claim = claim_paying scripts stake 26070

abbrev claim_txid : ℕ
claim_txid = 501

claim_is_built : claim_tx scripts stake ≡ some claim
claim_is_built = claim_tx-paying scripts taproot stake

claim_and_assert_chain-IsBalanced_example :
    (some_claim : ClaimTx) × (chain : AssertChain) × (claim_tx scripts stake ≡ some some_claim)
    × (assert_chain scripts (txid_of scripts some_claim.psbt) ≡ some chain)
    × IsBalanced some_claim.psbt
    × IsBalanced chain.pre_assert
    × All IsBalanced (to_list chain.assert_data)
    × IsBalanced chain.post_assert.psbt
claim_and_assert_chain-IsBalanced_example = claim_and_assert_chain-IsBalanced scripts taproot stake

abbrev script_at : ℕ → List ℕ
script_at i =
    if leb i 2 then taproot_script 7 else if leb i 35 then taproot_script 9 else taproot_script 10

abbrev chain : AssertChain
chain = chain_of scripts taproot claim_txid (from_fn 39 script_at)

chain_is_built : assert_chain scripts claim_txid ≡ some chain
unfolding assert_chain pre_assert_tx post_assert_tx take_array
chain_is_built = refl

assert_chain-assert_data_example :
    (previous_outputs (assert_data_tx scripts 50101 37 (taproot_script 10))
      ≡ outpoint 50101 37 ∷ [])
    × ((assert_data_tx scripts 50101 37 (taproot_script 10)).witness_utxos
        ≡ output_at chain.pre_assert 37 ∷ [])
assert_chain-assert_data_example =
    assert_chain-assert_data scripts taproot claim_txid chain 37
      (assert_data_tx scripts 50101 37 (taproot_script 10)) chain_is_built refl

assert_chain-post_assert_example :
    (previous_outputs chain.post_assert.psbt
      ≡ map (λ (tx : Psbt). first_output_of (txid_of scripts tx)) (to_list chain.assert_data))
    × (chain.post_assert.psbt.witness_utxos
        ≡ map (λ (tx : Psbt). output_at tx 0) (to_list chain.assert_data))
assert_chain-post_assert_example =
    assert_chain-post_assert scripts taproot claim_txid chain chain_is_built

abbrev payout_scripts : PayoutScripts
payout_scripts = record {
  connector_p = taproot_script 11;
  connector_stake = taproot_script 12;
  burn = taproot_script 13;
  key_spend = taproot_script;
  tweaked_key = taproot_script;
  payout_optimistic_timelock = 1008;
  payout_timelock = 288;
}

abbrev context : GraphContext
context = record {
  deposit_txid = 9;
  deposit_amount = 1000000000;
  challenge_cost = 100000000;
  stake_chain_params = record {
    stake_amount = 300000000;
    burn_amount = 10000000;
    delta = 6;
    slash_stake_count = 24;
  };
}

abbrev input : PegOutGraphInput
input = record {
  stake_outpoint = outpoint 5 2;
  withdrawal_fulfillment_outpoint = stake;
  stake_hash = 15;
  wots_public_keys = 16;
  operator_pubkey = 14;
}

abbrev optimistic : Psbt
optimistic =
    let data_in = payout_optimistic_data scripts context input claim in
    paying scripts payout_scripts 14 (payout_optimistic_tx_ins scripts payout_scripts data_in)
      (payout_optimistic_prevouts scripts payout_scripts data_in) 1000026730

abbrev payout : Psbt
payout =
    let data_in = payout_data scripts context input claim chain in
    paying scripts payout_scripts 14 (payout_tx_ins scripts payout_scripts data_in)
      (payout_prevouts scripts payout_scripts data_in) 1000012870

abbrev slash : Psbt
slash = slashing scripts payout_scripts (slash_stake_data (outpoint 5 2) 401) 300000000 9999670

abbrev graph : PegOutGraph
graph = assemble scripts payout_scripts context input claim optimistic chain payout (slash ∷ [])

graph_is_generated : generate true scripts payout_scripts context input (401 ∷ []) ≡ some graph
unfolding generate claim_tx payout_optimistic_tx pay_out sum_amounts assert_chain pre_assert_tx
    post_assert_tx take_array payout_tx slash_all slash_stake_tx
graph_is_generated = refl

generate-IsWired_example : IsWired scripts context input (401 ∷ []) graph
generate-IsWired_example =
    generate-IsWired scripts taproot payout_scripts true context input (401 ∷ []) graph
      graph_is_generated

generate_total_example :
    (g : PegOutGraph) × (generate true scripts payout_scripts context input (401 ∷ []) ≡ some g)
    × IsBalanced g.payout_optimistic
    × (output_at g.payout_optimistic 0 ≡ some (txout (taproot_script 14) 1000026730))
    × IsBalanced g.payout_tx
    × (output_at g.payout_tx 0 ≡ some (txout (taproot_script 14) 1000012870))
generate_total_example =
    generate_total scripts taproot payout_scripts true context input (401 ∷ []) refl (omega arith)
      (omega arith)
