-- ===== src/TxGraph.antt =====
-- The construction of the transactions by which an operator claims and asserts
-- (crates/tx-graph/src/transactions/claim.rs, pre_assert.rs, assert_data.rs, post_assert.rs and
-- assert_chain.rs). Links says how they spend one another, Balance what they pay; Payouts has the
-- other transactions of a graph, Graph its generation, and Witnesses the reading of witnesses. The
-- scripts of the connectors are a parameter. A result `none` is a panic. Amounts are numbers: those
-- that are added here are least amounts of scripts, far below the bound of `u64`, so that only a
-- difference can panic.
pub mod Links
pub mod Balance
pub mod Payouts
pub mod Graph
pub mod Witnesses
mod Examples
use strata_bridge.Prelude.{
  ℕ, suc, ◌+◌, ◌-◌, ◌*◌, ◌%◌, if◌then◌else◌, leb, ◌==◌, Option, none, some, List, [], ◌∷◌, ◌++◌,
  map, length,
}
use strata_bridge.Prelude.Array.{Array, nil, cons, to_list, from_const, take_array}
use strata_bridge.Prelude.Array
use strata_bridge.Bitcoin.{OutPoint, TxIn, TxOut, Transaction}
use strata_bridge.PogMusig.{num_assert_data_tx, ◌>>=◌}
use strata_bridge.StakeChain.{
  segwit_min_amount, funding_amount, create_tx_ins, create_tx_outs, create_tx,
}

-- The locking scripts of the connectors (crates/connectors), the least amount of a script that is
-- not dust, and the id of a transaction.
pub record Scripts : Type 0 where
  pub connector_k : List ℕ
  pub connector_c0 : List ℕ
  pub connector_c1 : List ℕ
  pub connector_n_of_n : List ℕ
  pub connector_a3 : List ℕ
  pub connector_cpfp : List ℕ
  pub connector_a256_batch_1 : Array (List ℕ) 3
  pub connector_a256_batch_2 : Array (List ℕ) 0
  pub connector_a_hash_batch_1 : Array (List ℕ) 33
  pub connector_a_hash_batch_2 : Array (List ℕ) 3
  pub pre_assert_timelock : ℕ
  pub minimal_non_dust : List ℕ → ℕ
  pub compute_txid : Transaction → ℕ

-- A `Psbt` by its unsigned transaction and the `witness_utxo` of each input.
pub record Psbt : Type 0 where
  pub unsigned_tx : Transaction
  pub witness_utxos : List (Option TxOut)

pub record ClaimTx : Type 0 where
  pub psbt : Psbt
  pub output_amount : ℕ

pub record PostAssertTx : Type 0 where
  pub psbt : Psbt
  pub output_amount : ℕ

pub record AssertChain : Type 0 where
  pub pre_assert : Psbt
  pub assert_data : Array Psbt num_assert_data_tx
  pub post_assert : PostAssertTx

-- `psbt.inputs.iter_mut().zip(prevouts)`: an input beyond the outputs keeps no output.
abbrev pub assign_utxos : List TxIn → List TxOut → List (Option TxOut)
assign_utxos [] utxos = []
assign_utxos (txin ∷ ins) [] = none ∷ assign_utxos ins []
assign_utxos (txin ∷ ins) (utxo ∷ utxos) = some utxo ∷ assign_utxos ins utxos

abbrev pub unsigned : List TxIn → List (List ℕ × ℕ) → List TxOut → Psbt
unsigned ins scripts_and_amounts prevouts = record {
  unsigned_tx = record (create_tx ins (create_tx_outs scripts_and_amounts)) { version = 3 };
  witness_utxos = assign_utxos ins prevouts;
}

-- `Amount - Amount`, which panics below zero.
abbrev pub checked_sub : ℕ → ℕ → Option ℕ
checked_sub a b = if leb b a then some (a - b) else none

abbrev pub value : TxOut → ℕ
value txout = txout.value

abbrev pub outpoint : ℕ → ℕ → OutPoint
outpoint txid vout = record { txid = txid; vout = vout }

abbrev pub sum : List ℕ → ℕ
sum [] = 0
sum (a ∷ rest) = a + sum rest

-- `tx.input[0].sequence = sequence`.
abbrev pub set_first_sequence : ℕ → List TxIn → List TxIn
set_first_sequence sequence [] = []
set_first_sequence sequence (a ∷ rest) = record a { sequence = sequence } ∷ rest

abbrev pub amount_of : (List ℕ × ℕ) → ℕ
amount_of (script, amount) = amount

abbrev pub first_output_of : ℕ → OutPoint
first_output_of txid = record { txid = txid; vout = 0 }

abbrev pub locking_script : TxOut → List ℕ
locking_script txout = txout.script_pubkey

-- The output of the claim that a challenge spends.
abbrev pub challenge_vout : ℕ
challenge_vout = 1

-- `[TxOut; PRE_ASSERT_OUTS]`.
abbrev pub pre_assert_outs : ℕ
pre_assert_outs = num_assert_data_tx + 1

module _ (c : Scripts) where
  -- `ClaimTx::new` where the amount of its first output is known.
  abbrev pub claim_paying : OutPoint → ℕ → ClaimTx
  claim_paying stake_outpoint c0_amt = record {
    psbt =
        unsigned (create_tx_ins (stake_outpoint ∷ []))
          ((c.connector_c0, c0_amt)
            ∷ (c.connector_c1, c.minimal_non_dust c.connector_c1)
            ∷ (c.connector_n_of_n, c.minimal_non_dust c.connector_n_of_n)
            ∷ (c.connector_cpfp, c.minimal_non_dust c.connector_cpfp)
            ∷ [])
          (record { value = funding_amount; script_pubkey = c.connector_k } ∷ []);
    output_amount = c0_amt;
  }

  unfoldable pub claim_tx : OutPoint → Option ClaimTx
  claim_tx stake_outpoint = do
    after_c1 ← checked_sub funding_amount (c.minimal_non_dust c.connector_c1)
    after_c2 ← checked_sub after_c1 (c.minimal_non_dust c.connector_n_of_n)
    c0_amt ← checked_sub after_c2 (c.minimal_non_dust c.connector_cpfp)
    some (claim_paying stake_outpoint c0_amt)

  -- The scripts of the bitcommitment connectors in the order of the outputs.
  abbrev pub commitments : List (List ℕ)
  commitments =
      to_list c.connector_a256_batch_1
      ++ (to_list c.connector_a256_batch_2
          ++ (to_list c.connector_a_hash_batch_1 ++ to_list c.connector_a_hash_batch_2))

  abbrev pub commitment_output : List ℕ → List ℕ × ℕ
  commitment_output script = (script, c.minimal_non_dust script * 2)

  abbrev pub scripts_and_amounts : List (List ℕ × ℕ)
  scripts_and_amounts =
      map commitment_output commitments
      ++ ((c.connector_cpfp, c.minimal_non_dust c.connector_cpfp) ∷ [])

  abbrev pub pre_assert_input_amount : ℕ
  pre_assert_input_amount = funding_amount - segwit_min_amount * 3

  abbrev pub pre_assert_psbt : ℕ → Psbt
  pre_assert_psbt claim_txid =
      unsigned
        (set_first_sequence (c.pre_assert_timelock % 65536)
          (create_tx_ins (record { txid = claim_txid; vout = 0 } ∷ [])))
        scripts_and_amounts
        (record { value = pre_assert_input_amount; script_pubkey = c.connector_c0 } ∷ [])

  unfoldable pub pre_assert_tx : ℕ → Option Psbt
  pre_assert_tx claim_txid = do
    net_stake ← checked_sub pre_assert_input_amount (sum (map amount_of scripts_and_amounts))
    if length scripts_and_amounts == pre_assert_outs
        then some (pre_assert_psbt claim_txid)
        else none

  abbrev pub assert_data_tx : (pre_assert_txid vout : ℕ) → List ℕ → Psbt
  assert_data_tx pre_assert_txid vout script =
      unsigned (create_tx_ins (record { txid = pre_assert_txid; vout = vout } ∷ []))
        ((c.connector_n_of_n, c.minimal_non_dust c.connector_n_of_n)
          ∷ (c.connector_cpfp, c.minimal_non_dust c.connector_cpfp)
          ∷ [])
        (record { value = segwit_min_amount * 2; script_pubkey = script } ∷ [])

  -- `AssertDataTxBatch::new` from the output `vout` on.
  abbrev pub assert_data_tx_batch :
      {n : ℕ} → (pre_assert_txid vout : ℕ) → Array (List ℕ) n → Array Psbt n
  assert_data_tx_batch pre_assert_txid vout nil = nil
  assert_data_tx_batch pre_assert_txid vout (cons script scripts) =
      cons (assert_data_tx pre_assert_txid vout script)
        (assert_data_tx_batch pre_assert_txid (suc vout) scripts)

  abbrev pub txid_of : Psbt → ℕ
  txid_of psbt = c.compute_txid psbt.unsigned_tx

  abbrev pub assert_data_output : TxOut
  assert_data_output = record {
    value = c.minimal_non_dust c.connector_n_of_n;
    script_pubkey = c.connector_n_of_n;
  }

  abbrev pub post_assert_paying : List ℕ → ℕ → PostAssertTx
  post_assert_paying assert_data_txids net_amount = record {
    psbt =
        unsigned (create_tx_ins (map first_output_of assert_data_txids))
          ((c.connector_a3, net_amount)
            ∷ (c.connector_cpfp, c.minimal_non_dust c.connector_cpfp)
            ∷ [])
          (to_list (from_const num_assert_data_tx assert_data_output));
    output_amount = net_amount;
  }

  unfoldable pub post_assert_tx : List ℕ → Option PostAssertTx
  post_assert_tx assert_data_txids = do
    net_amount ←
        checked_sub (segwit_min_amount * num_assert_data_tx) (c.minimal_non_dust c.connector_cpfp)
    some (post_assert_paying assert_data_txids net_amount)

  unfoldable pub assert_chain : ℕ → Option AssertChain
  assert_chain claim_txid = do
    pre_assert ← pre_assert_tx claim_txid
    (scripts, rest) ←
        take_array num_assert_data_tx (map locking_script pre_assert.unsigned_tx.output)
    let assert_data = assert_data_tx_batch (txid_of pre_assert) 0 scripts
    post_assert ← post_assert_tx (map txid_of (to_list assert_data))
    some (record { pre_assert = pre_assert; assert_data = assert_data; post_assert = post_assert })
