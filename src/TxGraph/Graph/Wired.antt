-- ===== src/TxGraph/Graph/Wired.antt =====
-- How the transactions of a generated graph spend one another (PegOutGraph::generate of
-- crates/tx-graph/src/peg_out_graph.rs).
use strata_bridge.Prelude.{
  ℕ, Bool, Option, some, List, [], ◌∷◌, map, get_elem?, All, ◌≡◌, refl, sym, ap, ◌∙◌,
}
use strata_bridge.Bitcoin.{OutPoint, TxIn, TxOut}
use strata_bridge.PogMusig.{>>=-eq-some}
use strata_bridge.PegOutGraph.{PegOutGraphInput}
use strata_bridge.TxGraph.{
  Scripts, Psbt, ClaimTx, AssertChain, claim_tx, assert_chain, txid_of, outpoint, checked_sub,
  value,
}
use strata_bridge.TxGraph.Balance.{IsTaproot, claim_tx-paying, assert_chain-chain_of}
use strata_bridge.TxGraph.Links.{previous_outputs, output_at}
use strata_bridge.TxGraph.Payouts.{
  PayoutScripts, SlashStakeData, challenge_tx, payout_optimistic_tx, payout_tx, disprove_tx,
  slash_stake_tx, pay_out, paying, slashing, dust, payout_optimistic_tx_ins, payout_tx_ins,
  payout_optimistic_prevouts, payout_prevouts, sum_amounts,
}
use strata_bridge.TxGraph.Graph.{
  PegOutGraph, GraphContext, slash_all, generate, payout_optimistic_data, payout_data,
  slash_stake_data, assemble,
}
use strata_bridge.StakeChain.{segwit_min_amount}
use mathlib.Core.Option.{some-injective}

-- The input of `tx` at `i` spends the output of `parent` at `vout`, and the output that it records
-- for the signature is the one that `parent` has there.
abbrev pub Spends : Scripts → Psbt → ℕ → Psbt → ℕ → Type 0
Spends c tx i parent vout =
    (get_elem? (previous_outputs tx) i ≡ some (outpoint (txid_of c parent) vout))
    × (get_elem? tx.witness_utxos i ≡ some (output_at parent vout))

abbrev pub spends_at : Psbt → ℕ → Option OutPoint
spends_at tx i = get_elem? (previous_outputs tx) i

-- The claim spends the output that the input names. Its first output is spent by the optimistic
-- payout and by the pre-assert transaction, the second one by the optimistic payout and by a
-- challenge, the third one by both payouts. The first output of the post-assert transaction is
-- spent by the payout and by the disproof. Both payouts spend the deposit and the second output of
-- the stake transaction, the disproof the stake. There is one transaction that slashes the stake
-- for each of the earlier claims, which spends the third output of that claim and the stake, and
-- records for the claim what this claim has there.
pub record IsWired (c : Scripts) (context : GraphContext) (input : PegOutGraphInput)
    (prev_claim_txids : List ℕ) (g : PegOutGraph) : Type 0 where
  pub claim : previous_outputs g.claim_tx.psbt ≡ input.withdrawal_fulfillment_outpoint ∷ []
  pub challenge : Spends c g.challenge_tx 0 g.claim_tx.psbt 1
  pub optimistic_deposit : spends_at g.payout_optimistic 0 ≡ some (outpoint context.deposit_txid 0)
  pub optimistic_0 : Spends c g.payout_optimistic 1 g.claim_tx.psbt 0
  pub optimistic_1 : Spends c g.payout_optimistic 2 g.claim_tx.psbt 1
  pub optimistic_2 : Spends c g.payout_optimistic 3 g.claim_tx.psbt 2
  pub optimistic_stake :
      spends_at g.payout_optimistic 4 ≡ some (outpoint input.stake_outpoint.txid 1)
  pub pre_assert : Spends c g.assert_chain.pre_assert 0 g.claim_tx.psbt 0
  pub payout_deposit : spends_at g.payout_tx 0 ≡ some (outpoint context.deposit_txid 0)
  pub payout_post_assert : Spends c g.payout_tx 1 g.assert_chain.post_assert.psbt 0
  pub payout_claim : Spends c g.payout_tx 2 g.claim_tx.psbt 2
  pub payout_stake : spends_at g.payout_tx 3 ≡ some (outpoint input.stake_outpoint.txid 1)
  pub disprove_stake : spends_at g.disprove_tx 0 ≡ some input.stake_outpoint
  pub disprove_post_assert : Spends c g.disprove_tx 1 g.assert_chain.post_assert.psbt 0
  pub slash_claims :
      map (λ (tx : Psbt). spends_at tx 0) g.slash_stake_txs
      ≡ map (λ claim_txid. some (outpoint claim_txid 2)) prev_claim_txids
  pub slash_stake :
      map (λ (tx : Psbt). spends_at tx 1) g.slash_stake_txs
      ≡ map (λ claim_txid. some input.stake_outpoint) prev_claim_txids
  pub slash_records :
      All
        (λ (tx : Psbt). get_elem? tx.witness_utxos 0 ≡ some (output_at g.claim_tx.psbt 2))
        g.slash_stake_txs

Spends-built :
    (c : Scripts) (built tx built_parent parent : Psbt) (i vout : ℕ)
    → built ≡ tx
    → built_parent ≡ parent
    → get_elem? (previous_outputs built) i ≡ some (outpoint (txid_of c parent) vout)
    → get_elem? built.witness_utxos i ≡ some (output_at built_parent vout)
    → Spends c tx i parent vout
Spends-built c built tx built_parent parent i vout same same_parent spent recorded = (
  ap (λ (p : Psbt). get_elem? (previous_outputs p) i) (sym same) ∙ spent,
  ap (λ (p : Psbt). get_elem? p.witness_utxos i) (sym same)
      ∙ recorded
      ∙ ap (λ (p : Psbt). some (output_at p vout)) same_parent,
)

module _ (c : Scripts) (d : PayoutScripts) where
  pay_out-built :
      (debug : Bool) (operator_key : ℕ) (tx_ins : List TxIn) (prevouts : List TxOut) (tx : Psbt)
      → pay_out c d debug operator_key tx_ins prevouts ≡ some tx
      → (payout_amount : ℕ) × (paying c d operator_key tx_ins prevouts payout_amount ≡ tx)
  unfolding pay_out
  pay_out-built debug operator_key tx_ins prevouts tx h =
      let (total, e, h') = >>=-eq-some (sum_amounts debug 0 (map value prevouts)) _ h in
      let (payout_amount, e', h'') =
        >>=-eq-some (checked_sub total (c.minimal_non_dust c.connector_cpfp)) _ h' in
      (payout_amount, some-injective _ _ h'')

  slash_stake_tx-built :
      (data_in : SlashStakeData) (stake_amount burn_amount : ℕ) (tx : Psbt)
      → slash_stake_tx c d data_in stake_amount burn_amount ≡ some tx
      → (burned : ℕ) × (slashing c d data_in stake_amount burned ≡ tx)
  unfolding slash_stake_tx
  slash_stake_tx-built data_in stake_amount burn_amount tx h =
      let (burned, e, h') = >>=-eq-some (checked_sub burn_amount segwit_min_amount) _ h in
      (burned, some-injective _ _ h')

  slash_all-links :
      (debug : Bool) (context : GraphContext) (stake_outpoint : OutPoint)
      (prev_claim_txids : List ℕ) (txs : List Psbt) (out : Option TxOut)
      → some (dust c d c.connector_n_of_n) ≡ out
      → slash_all debug c d context stake_outpoint prev_claim_txids ≡ some txs
      → (map (λ (tx : Psbt). spends_at tx 0) txs
          ≡ map (λ claim_txid. some (outpoint claim_txid 2)) prev_claim_txids)
        × (map (λ (tx : Psbt). spends_at tx 1) txs
            ≡ map (λ claim_txid. some stake_outpoint) prev_claim_txids)
        × All (λ (tx : Psbt). get_elem? tx.witness_utxos 0 ≡ some out) txs
  unfolding slash_all
  slash_all-links debug context stake_outpoint [] txs out same h =
      rw (← some-injective _ _ h) (refl, refl, tt)
  slash_all-links debug context stake_outpoint (claim_txid ∷ rest) txs out same h =
      let params = context.stake_chain_params in
      let data_in = slash_stake_data stake_outpoint claim_txid in
      let (tx, e, h') =
        >>=-eq-some (slash_stake_tx c d data_in params.stake_amount params.burn_amount) _ h in
      let (others, e', h'') = >>=-eq-some (slash_all debug c d context stake_outpoint rest) _ h' in
      let (burned, built) =
        slash_stake_tx-built data_in params.stake_amount params.burn_amount tx e in
      let (claims, stakes, records) =
        slash_all-links debug context stake_outpoint rest others out same e' in
      rw (← some-injective _ _ h'', ← built)
        (
          ap (◌∷◌ (some (outpoint claim_txid 2))) claims,
          ap (◌∷◌ (some stake_outpoint)) stakes,
          (ap some same, records),
        )

module _ (c : Scripts) (ok : IsTaproot c) (d : PayoutScripts) (debug : Bool) where
  assemble-IsWired :
      (context : GraphContext) (input : PegOutGraphInput) (prev_claim_txids : List ℕ)
      (claim : ClaimTx) (optimistic : Psbt) (chain : AssertChain) (payout : Psbt)
      (slashes : List Psbt)
      → claim_tx c input.withdrawal_fulfillment_outpoint ≡ some claim
      → payout_optimistic_tx c d debug (payout_optimistic_data c context input claim)
        ≡ some optimistic
      → assert_chain c (txid_of c claim.psbt) ≡ some chain
      → payout_tx c d debug (payout_data c context input claim chain) ≡ some payout
      → slash_all debug c d context input.stake_outpoint prev_claim_txids ≡ some slashes
      → IsWired c context input prev_claim_txids
          (assemble c d context input claim optimistic chain payout slashes)
  unfolding payout_optimistic_tx payout_tx challenge_tx disprove_tx
  assemble-IsWired context input prev_claim_txids claim optimistic chain payout slashes claimed paid
        asserted contested slashed =
      let g = assemble c d context input claim optimistic chain payout slashes in
      let post_assert = chain.post_assert.psbt in
      let is_claim =
        ap (λ (x : ClaimTx). x.psbt)
          (some-injective _ _
            (sym (claim_tx-paying c ok input.withdrawal_fulfillment_outpoint) ∙ claimed)) in
      let data_in = payout_optimistic_data c context input claim in
      let (a, is_optimistic) =
        pay_out-built c d debug input.operator_pubkey (payout_optimistic_tx_ins c d data_in)
          (payout_optimistic_prevouts c d data_in) optimistic paid in
      let data_in' = payout_data c context input claim chain in
      let (a', is_payout) =
        pay_out-built c d debug input.operator_pubkey (payout_tx_ins c d data_in')
          (payout_prevouts c d data_in') payout contested in
      let (scripts, all_scripts, built) = assert_chain-chain_of c ok (txid_of c claim.psbt) in
      let is_chain = some-injective _ _ (sym built ∙ asserted) in
      let is_pre_assert = ap (λ (x : AssertChain). x.pre_assert) is_chain in
      let is_post_assert = ap (λ (x : AssertChain). x.post_assert.psbt) is_chain in
      let (claims, stakes, records) =
        slash_all-links c d debug context input.stake_outpoint prev_claim_txids slashes
          (output_at claim.psbt 2) (ap (λ p. output_at p 2) is_claim) slashed in
      record {
        claim = ap previous_outputs (sym is_claim);
        challenge =
            Spends-built c g.challenge_tx g.challenge_tx _ claim.psbt 0 1 refl is_claim refl refl;
        optimistic_deposit = ap (λ p. spends_at p 0) (sym is_optimistic);
        optimistic_0 =
            Spends-built c _ optimistic _ claim.psbt 1 0 is_optimistic is_claim refl refl;
        optimistic_1 =
            Spends-built c _ optimistic _ claim.psbt 2 1 is_optimistic is_claim refl refl;
        optimistic_2 =
            Spends-built c _ optimistic _ claim.psbt 3 2 is_optimistic is_claim refl refl;
        optimistic_stake = ap (λ p. spends_at p 4) (sym is_optimistic);
        pre_assert =
            Spends-built c _ chain.pre_assert _ claim.psbt 0 0 is_pre_assert is_claim refl refl;
        payout_deposit = ap (λ p. spends_at p 0) (sym is_payout);
        payout_post_assert =
            Spends-built c _ payout _ post_assert 1 0 is_payout is_post_assert refl refl;
        payout_claim = Spends-built c _ payout _ claim.psbt 2 2 is_payout is_claim refl refl;
        payout_stake = ap (λ p. spends_at p 3) (sym is_payout);
        disprove_stake = refl;
        disprove_post_assert =
            Spends-built c g.disprove_tx g.disprove_tx _ post_assert 1 0 refl is_post_assert refl
              refl;
        slash_claims = claims;
        slash_stake = stakes;
        slash_records = records;
      }

  -- With taproot scripts, the transactions of every graph that is generated spend one another as
  -- they should. The first output of the claim is spent by the optimistic payout and by the
  -- pre-assert transaction, the second one by the optimistic payout and by the challenge, the third
  -- one by both payouts; the first output of the post-assert transaction by the contested payout and
  -- by the disproof; and each of these inputs records for the signature the output that stands
  -- there, in amount and script. The claim spends the output that the input names, both payouts the
  -- deposit and the second output of the stake transaction, the disproof the stake; and for each
  -- earlier claim one transaction spends the third output of that claim and the stake.
  pub generate-IsWired :
      (context : GraphContext) (input : PegOutGraphInput) (prev_claim_txids : List ℕ)
      (g : PegOutGraph)
      → generate debug c d context input prev_claim_txids ≡ some g
      → IsWired c context input prev_claim_txids g
  unfolding generate
  generate-IsWired context input prev_claim_txids g h =
      let (claim, claimed, h1) =
        >>=-eq-some (claim_tx c input.withdrawal_fulfillment_outpoint) _ h in
      let data_in = payout_optimistic_data c context input claim in
      let (optimistic, paid, h2) = >>=-eq-some (payout_optimistic_tx c d debug data_in) _ h1 in
      let (chain, asserted, h3) = >>=-eq-some (assert_chain c (txid_of c claim.psbt)) _ h2 in
      let data_in' = payout_data c context input claim chain in
      let (payout, contested, h4) = >>=-eq-some (payout_tx c d debug data_in') _ h3 in
      let (slashes, slashed, h5) =
        >>=-eq-some (slash_all debug c d context input.stake_outpoint prev_claim_txids) _ h4 in
      rw (← some-injective _ _ h5) (
        assemble-IsWired context input prev_claim_txids claim optimistic chain payout slashes
          claimed paid asserted contested slashed)
