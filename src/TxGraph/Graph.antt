-- ===== src/TxGraph/Graph.antt =====
-- The generation of the transactions of a peg-out graph (PegOutGraph::generate of
-- crates/tx-graph/src/peg_out_graph.rs). Its children say how they spend one another (Wired), and
-- when they can be built and what they pay (Total). The connectors of the graph are parameters.
pub mod Wired
pub mod Total
use strata_bridge.Prelude.{ℕ, Bool, Option, some, List, [], ◌∷◌}
use strata_bridge.Bitcoin.{OutPoint}
use strata_bridge.PogMusig.{◌>>=◌}
use strata_bridge.StakeChain.{StakeChainParams}
use strata_bridge.PegOutGraph.{PegOutGraphInput}
use strata_bridge.TxGraph.{
  Scripts, Psbt, ClaimTx, AssertChain, claim_tx, assert_chain, txid_of, outpoint, challenge_vout,
}
use strata_bridge.TxGraph.Payouts.{
  PayoutScripts, PayoutOptimisticData, PayoutData, SlashStakeData, challenge_tx,
  payout_optimistic_tx, payout_tx, disprove_tx, slash_stake_tx,
}

pub record PegOutGraph : Type 0 where
  pub claim_tx : ClaimTx
  pub challenge_tx : Psbt
  pub payout_optimistic : Psbt
  pub assert_chain : AssertChain
  pub payout_tx : Psbt
  pub disprove_tx : Psbt
  pub slash_stake_txs : List Psbt

-- What `generate` is told besides the input and the claims: the deposit, the amounts of the
-- graph's parameters, and the parameters of the stake chain.
pub record GraphContext : Type 0 where
  pub deposit_txid : ℕ
  pub deposit_amount : ℕ
  pub challenge_cost : ℕ
  pub stake_chain_params : StakeChainParams

abbrev pub slash_stake_vout : ℕ
slash_stake_vout = 2

module _ (c : Scripts) (context : GraphContext) (input : PegOutGraphInput) (claim : ClaimTx) where
  abbrev pub payout_optimistic_data : PayoutOptimisticData
  payout_optimistic_data = record {
    claim_txid = txid_of c claim.psbt;
    deposit_txid = context.deposit_txid;
    stake_outpoint = outpoint input.stake_outpoint.txid 1;
    deposit_amount = context.deposit_amount;
    operator_key = input.operator_pubkey;
  }

  abbrev pub payout_data : AssertChain → PayoutData
  payout_data chain = record {
    post_assert_txid = txid_of c chain.post_assert.psbt;
    deposit_txid = context.deposit_txid;
    claim_outpoint = outpoint (txid_of c claim.psbt) slash_stake_vout;
    stake_outpoint = outpoint input.stake_outpoint.txid 1;
    deposit_amount = context.deposit_amount;
    operator_key = input.operator_pubkey;
  }

abbrev pub slash_stake_data : OutPoint → (claim_txid : ℕ) → SlashStakeData
slash_stake_data stake_outpoint claim_txid = record {
  claim_outpoint = outpoint claim_txid slash_stake_vout;
  stake_outpoint = stake_outpoint;
}

-- The graph of the transactions that are built, with the two that need no computation.
abbrev pub assemble :
    Scripts
    → PayoutScripts
    → GraphContext
    → PegOutGraphInput
    → ClaimTx
    → Psbt
    → AssertChain
    → Psbt
    → List Psbt
    → PegOutGraph
assemble c d context input claim payout_optimistic chain payout slashes = record {
  claim_tx = claim;
  challenge_tx = challenge_tx c d (record {
    claim_outpoint = outpoint (txid_of c claim.psbt) challenge_vout;
    challenge_amt = context.challenge_cost;
    operator_pubkey = input.operator_pubkey;
  });
  payout_optimistic = payout_optimistic;
  assert_chain = chain;
  payout_tx = payout;
  disprove_tx =
      disprove_tx c d
        (record {
          post_assert_txid = txid_of c chain.post_assert.psbt;
          stake_outpoint = input.stake_outpoint;
        })
        context.stake_chain_params.stake_amount context.stake_chain_params.burn_amount;
  slash_stake_txs = slashes;
}

module _ (debug : Bool) (c : Scripts) (d : PayoutScripts) (context : GraphContext) where
  -- The transactions that slash the stake, one for each claim.
  unfoldable pub slash_all : OutPoint → (prev_claim_txids : List ℕ) → Option (List Psbt)
  slash_all stake_outpoint [] = some []
  slash_all stake_outpoint (claim_txid ∷ rest) = do
    tx ←
        slash_stake_tx c d (slash_stake_data stake_outpoint claim_txid)
          context.stake_chain_params.stake_amount context.stake_chain_params.burn_amount
    txs ← slash_all stake_outpoint rest
    some (tx ∷ txs)

  unfoldable pub generate : PegOutGraphInput → (prev_claim_txids : List ℕ) → Option PegOutGraph
  generate input prev_claim_txids = do
    claim ← claim_tx c input.withdrawal_fulfillment_outpoint
    payout_optimistic ←
        payout_optimistic_tx c d debug (payout_optimistic_data c context input claim)
    chain ← assert_chain c (txid_of c claim.psbt)
    payout ← payout_tx c d debug (payout_data c context input claim chain)
    slashes ← slash_all input.stake_outpoint prev_claim_txids
    some (assemble c d context input claim payout_optimistic chain payout slashes)
