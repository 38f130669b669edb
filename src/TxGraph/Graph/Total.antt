-- ===== src/TxGraph/Graph/Total.antt =====
-- When a graph can be generated, and what its payouts pay (PegOutGraph::generate of
-- crates/tx-graph/src/peg_out_graph.rs).
use strata_bridge.Prelude.{
  ℕ, ◌+◌, ◌-◌, ◌^◌, ◌≤◌, ◌<◌, Bool, some, List, [], ◌∷◌, map, le→leb, lt→ltb, ◌≡◌, refl, ap, ◌∙◌,
  arith,
}
use strata_bridge.Bitcoin.{OutPoint, TxIn, TxOut}
use strata_bridge.PegOutGraph.{PegOutGraphInput}
use strata_bridge.TxGraph.{Scripts, Psbt, claim_paying, txid_of, value, sum}
use strata_bridge.TxGraph.Balance.{
  IsTaproot, IsBalanced, claim_tx-paying, assert_chain-chain_of, chain_of,
}
use strata_bridge.TxGraph.Links.{output_at}
use strata_bridge.TxGraph.Payouts.{
  PayoutScripts, payout_optimistic_tx, payout_tx, slash_stake_tx, pay_out, paying, slashing,
  payout_optimistic_tx_ins, payout_tx_ins, payout_optimistic_prevouts, payout_prevouts, sum_amounts,
  txout,
}
use strata_bridge.TxGraph.Graph.{
  PegOutGraph, GraphContext, slash_all, generate, payout_optimistic_data, payout_data,
  slash_stake_data, assemble,
}

-- A sum of amounts that is below the bound of `u64` is the sum.
sum_amounts-sum :
    (debug : Bool) (acc : ℕ) (amounts : List ℕ)
    → acc + sum amounts < 2 ^ 64
    → sum_amounts debug acc amounts ≡ some (acc + sum amounts)
unfolding sum_amounts
sum_amounts-sum debug acc [] h = ap some (omega arith)
sum_amounts-sum debug acc (a ∷ rest) h =
    rw (lt→ltb (acc + a) (2 ^ 64) (omega arith))
      (sum_amounts-sum debug (acc + a) rest (omega arith) ∙ ap some (omega arith))

module _ (debug : Bool) (c : Scripts) (d : PayoutScripts) where
  pay_out-paying :
      (operator_key : ℕ) (tx_ins : List TxIn) (prevouts : List TxOut) (payout_amount : ℕ)
      → sum (map value prevouts) ≡ payout_amount + c.minimal_non_dust c.connector_cpfp
      → sum (map value prevouts) < 2 ^ 64
      → pay_out c d debug operator_key tx_ins prevouts
        ≡ some (paying c d operator_key tx_ins prevouts payout_amount)
  unfolding pay_out
  pay_out-paying operator_key tx_ins prevouts payout_amount e h =
      rw
        (
          sum_amounts-sum debug 0 (map value prevouts) (omega arith),
          le→leb (c.minimal_non_dust c.connector_cpfp) (0 + sum (map value prevouts)) (omega arith),
        )
        (ap (λ amount. some (paying c d operator_key tx_ins prevouts amount)) (omega arith))

  slash_all_total :
      (context : GraphContext) (stake_outpoint : OutPoint) (prev_claim_txids : List ℕ)
      → 330 ≤ context.stake_chain_params.burn_amount
      → (txs : List Psbt) × (slash_all debug c d context stake_outpoint prev_claim_txids ≡ some txs)
  unfolding slash_all slash_stake_tx
  slash_all_total context stake_outpoint [] h = ([], refl)
  slash_all_total context stake_outpoint (claim_txid ∷ rest) h =
      let (txs, e) = slash_all_total context stake_outpoint rest h in
      let params = context.stake_chain_params in
      let data_in = slash_stake_data stake_outpoint claim_txid in
      (
        slashing c d data_in params.stake_amount (params.burn_amount - 330) ∷ txs,
        rw (le→leb 330 params.burn_amount h, e),
      )

module _ (c : Scripts) (ok : IsTaproot c) (d : PayoutScripts) (debug : Bool) where
  -- With taproot scripts, a deposit that leaves room for the 27060 of the funding below the bound of
  -- `u64`, and an amount to burn that is no dust, a graph is generated for every input and every
  -- list of claims, whether or not overflow is checked. Its payouts pay no fee, and give the
  -- operator the deposit and 26730 or 12870 more.
  pub generate_total :
      (context : GraphContext) (input : PegOutGraphInput) (prev_claim_txids : List ℕ)
      → c.minimal_non_dust d.connector_p ≡ 330
      → context.deposit_amount + 27060 < 2 ^ 64
      → 330 ≤ context.stake_chain_params.burn_amount
      → (g : PegOutGraph) × (generate debug c d context input prev_claim_txids ≡ some g)
        × IsBalanced g.payout_optimistic
        × (output_at g.payout_optimistic 0
            ≡ some (txout (d.key_spend input.operator_pubkey) (context.deposit_amount + 26730)))
        × IsBalanced g.payout_tx
        × (output_at g.payout_tx 0
            ≡ some (txout (d.key_spend input.operator_pubkey) (context.deposit_amount + 12870)))
  unfolding generate payout_optimistic_tx payout_tx
  generate_total context input prev_claim_txids p_dust room burn =
      let claim = claim_paying c input.withdrawal_fulfillment_outpoint 26070 in
      let (scripts, all_scripts, built) = assert_chain-chain_of c ok (txid_of c claim.psbt) in
      let chain = chain_of c ok (txid_of c claim.psbt) scripts in
      let data_in = payout_optimistic_data c context input claim in
      let data_in' = payout_data c context input claim chain in
      let key = input.operator_pubkey in
      let (slashes, slashed) =
        slash_all_total debug c d context input.stake_outpoint prev_claim_txids burn in
      let optimistic =
        paying c d key (payout_optimistic_tx_ins c d data_in)
          (payout_optimistic_prevouts c d data_in) (context.deposit_amount + 26730) in
      let payout =
        paying c d key (payout_tx_ins c d data_in') (payout_prevouts c d data_in')
          (context.deposit_amount + 12870) in
      (
        assemble c d context input claim optimistic chain payout slashes,
        rw (
          claim_tx-paying c ok input.withdrawal_fulfillment_outpoint,
          pay_out-paying debug c d key (payout_optimistic_tx_ins c d data_in)
              (payout_optimistic_prevouts c d data_in) (context.deposit_amount + 26730)
              (omega (arith, ok.c1, ok.n_of_n, ok.cpfp, p_dust))
              (omega (arith, ok.c1, ok.n_of_n, ok.cpfp, p_dust, room)),
          built,
          pay_out-paying debug c d key (payout_tx_ins c d data_in') (payout_prevouts c d data_in')
              (context.deposit_amount + 12870) (omega (arith, ok.n_of_n, ok.cpfp, p_dust))
              (omega (arith, ok.n_of_n, ok.cpfp, p_dust, room)),
          slashed,
        ),
        omega (arith, ok.c1, ok.n_of_n, ok.cpfp, p_dust),
        refl,
        omega (arith, ok.n_of_n, ok.cpfp, p_dust),
        refl,
      )
