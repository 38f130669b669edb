-- ===== src/PegOutGraph.antt =====
-- The graph of a peg-out, what of it is signed together, and its summary
-- (crates/tx-graph/src/peg_out_graph.rs). Keys, signatures, hashes, messages and spending paths are
-- numbers.
use strata_bridge.Prelude.{ℕ, Option, none, some, List, map, first?}
use strata_bridge.Prelude.Array.{Array, nil, cons, from_fn, head}
use strata_bridge.Prelude.Array
use strata_bridge.Bitcoin.{OutPoint, Transaction}
use strata_bridge.PogMusig.{
  PogMusigF, num_assert_data_tx, num_payout_optimistic_inputs, num_payout_inputs,
}

pub record PegOutGraphInput : Type 0 where
  pub stake_outpoint : OutPoint
  pub withdrawal_fulfillment_outpoint : OutPoint
  pub stake_hash : ℕ
  pub wots_public_keys : ℕ
  pub operator_pubkey : ℕ

pub record PegOutGraphSummary : Type 0 where
  pub stake_txid : ℕ
  pub claim_txid : ℕ
  pub payout_optimistic_txid : ℕ
  pub pre_assert_txid : ℕ
  pub assert_data_txids : Array ℕ num_assert_data_tx
  pub post_assert_txid : ℕ
  pub payout_txid : ℕ
  pub slash_stake_txids : List ℕ

-- A transaction of the graph whose `n` inputs are signed together.
pub record GraphTx (n : ℕ) : Type 0 where
  pub unsigned_tx : Transaction
  pub sighash_types : Array ℕ n
  pub sighashes : Array ℕ n
  pub witnesses : Array ℕ n

pub record AssertChain : Type 0 where
  pub pre_assert : GraphTx 1
  pub assert_data : Array Transaction num_assert_data_tx
  pub post_assert : GraphTx num_assert_data_tx

pub record PegOutGraph : Type 0 where
  pub claim_tx : Transaction
  pub challenge_tx : GraphTx 1
  pub payout_optimistic : GraphTx num_payout_optimistic_inputs
  pub assert_chain : AssertChain
  pub payout_tx : GraphTx num_payout_inputs
  pub disprove_tx : GraphTx 1
  pub slash_stake_txs : List (GraphTx 2)

-- The two entries of an array.
abbrev pub pair {ℓ} : {A : Type ℓ} → Array A 2 → A × A
pair (cons a (cons b nil)) = (a, b)

module _ (compute_txid : Transaction → ℕ) where
  -- `input[0].previous_output.txid`; `none` is the panic of the index.
  abbrev pub first_spent : Transaction → Option ℕ
  first_spent tx = elim (first? tx.input) [
    | none ↦ none
    | some txin ↦ some txin.previous_output.txid
  ]

  unfoldable pub summarize : PegOutGraph → Option PegOutGraphSummary
  summarize g = elim (first_spent g.claim_tx) [
    | none ↦ none
    | some stake_txid ↦ some (record {
      stake_txid = stake_txid;
      claim_txid = compute_txid g.claim_tx;
      payout_optimistic_txid = compute_txid g.payout_optimistic.unsigned_tx;
      pre_assert_txid = compute_txid g.assert_chain.pre_assert.unsigned_tx;
      assert_data_txids = Array.map compute_txid g.assert_chain.assert_data;
      post_assert_txid = compute_txid g.assert_chain.post_assert.unsigned_tx;
      payout_txid = compute_txid g.payout_tx.unsigned_tx;
      slash_stake_txids = map (λ (tx : GraphTx 2). compute_txid tx.unsigned_tx) g.slash_stake_txs;
    })
  ]

  abbrev outpoint : Transaction → ℕ → OutPoint
  outpoint tx vout = record { txid = compute_txid tx; vout = vout }

  unfoldable pub musig_inpoints : PegOutGraph → PogMusigF OutPoint
  musig_inpoints g = record {
    challenge = outpoint g.challenge_tx.unsigned_tx 0;
    pre_assert = outpoint g.assert_chain.pre_assert.unsigned_tx 0;
    post_assert = from_fn num_assert_data_tx (outpoint g.assert_chain.post_assert.unsigned_tx);
    payout_optimistic =
        from_fn num_payout_optimistic_inputs (outpoint g.payout_optimistic.unsigned_tx);
    payout = from_fn num_payout_inputs (outpoint g.payout_tx.unsigned_tx);
    disprove = outpoint g.disprove_tx.unsigned_tx 0;
    slash_stake =
        map (λ (tx : GraphTx 2). (outpoint tx.unsigned_tx 0, outpoint tx.unsigned_tx 1))
          g.slash_stake_txs;
  }

unfoldable pub musig_sighash_types : PegOutGraph → PogMusigF ℕ
musig_sighash_types g = record {
  challenge = head g.challenge_tx.sighash_types;
  pre_assert = head g.assert_chain.pre_assert.sighash_types;
  post_assert = g.assert_chain.post_assert.sighash_types;
  payout_optimistic = g.payout_optimistic.sighash_types;
  payout = g.payout_tx.sighash_types;
  disprove = head g.disprove_tx.sighash_types;
  slash_stake = map (λ (tx : GraphTx 2). pair tx.sighash_types) g.slash_stake_txs;
}

unfoldable pub musig_sighashes : PegOutGraph → PogMusigF ℕ
musig_sighashes g = record {
  challenge = head g.challenge_tx.sighashes;
  pre_assert = head g.assert_chain.pre_assert.sighashes;
  post_assert = g.assert_chain.post_assert.sighashes;
  payout_optimistic = g.payout_optimistic.sighashes;
  payout = g.payout_tx.sighashes;
  disprove = head g.disprove_tx.sighashes;
  slash_stake = map (λ (tx : GraphTx 2). pair tx.sighashes) g.slash_stake_txs;
}

unfoldable pub musig_witnesses : PegOutGraph → PogMusigF ℕ
musig_witnesses g = record {
  challenge = head g.challenge_tx.witnesses;
  pre_assert = head g.assert_chain.pre_assert.witnesses;
  post_assert = g.assert_chain.post_assert.witnesses;
  payout_optimistic = g.payout_optimistic.witnesses;
  payout = g.payout_tx.witnesses;
  disprove = head g.disprove_tx.witnesses;
  slash_stake = map (λ (tx : GraphTx 2). pair tx.witnesses) g.slash_stake_txs;
}
