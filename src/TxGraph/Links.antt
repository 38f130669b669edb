-- ===== src/TxGraph/Links.antt =====
-- How the claim, the pre-assert, the assert-data and the post-assert transactions spend one another
-- (crates/tx-graph/src/transactions/claim.rs, pre_assert.rs, assert_data.rs, post_assert.rs).
use strata_bridge.Prelude.{
  ℕ, zero, suc, ◌+◌, Option, some, List, [], ◌∷◌, ◌++◌, map, get_elem?, All, ◌≡◌, refl, sym, ap,
  ◌∙◌, arith,
}
use strata_bridge.Prelude.Array.{Array, nil, cons, to_list}
use strata_bridge.Bitcoin.{OutPoint, TxIn, TxOut}
use strata_bridge.StakeChain.{create_tx_ins, create_tx_outs}
use strata_bridge.TxGraph.{
  outpoint, Scripts, Psbt, AssertChain, commitments, commitment_output, pre_assert_psbt,
  assert_data_tx, assert_data_tx_batch, txid_of, first_output_of, assert_data_output, assert_chain,
}
use strata_bridge.TxGraph.Balance.{IsTaproot, assert_chain-chain_of, spent_outputs}
use mathlib.Core.Option.{some-injective}

abbrev previous_output : TxIn → OutPoint
previous_output txin = txin.previous_output

abbrev pub previous_outputs : Psbt → List OutPoint
previous_outputs psbt = map previous_output psbt.unsigned_tx.input

abbrev pub output_at : Psbt → ℕ → Option TxOut
output_at psbt vout = get_elem? psbt.unsigned_tx.output vout

previous_outputs-create_tx_ins :
    (outpoints : List OutPoint) → map previous_output (create_tx_ins outpoints) ≡ outpoints
previous_outputs-create_tx_ins [] = refl
previous_outputs-create_tx_ins (outpoint ∷ rest) =
    ap (◌∷◌ outpoint) (previous_outputs-create_tx_ins rest)

module _ (c : Scripts) (ok : IsTaproot c) where
  get_elem?-outs :
      (scripts : List (List ℕ)) (last : List ℕ × ℕ) (i : ℕ) (script : List ℕ)
      → All (λ s. c.minimal_non_dust s ≡ 330) scripts
      → get_elem? scripts i ≡ some script
      → get_elem? (create_tx_outs (map (commitment_output c) scripts ++ (last ∷ []))) i
        ≡ some (record { value = 660; script_pubkey = script })
  get_elem?-outs [] last i script h e = cc
  get_elem?-outs (first ∷ scripts) last zero script (h, hs) e = rw (h, some-injective _ _ e)
  get_elem?-outs (first ∷ scripts) last (suc i) script (h, hs) e =
      get_elem?-outs scripts last i script hs e

  get_elem?-batch :
      {n : ℕ} (txid vout : ℕ) (scripts : Array (List ℕ) n) (i : ℕ) (tx : Psbt)
      → get_elem? (to_list (assert_data_tx_batch c txid vout scripts)) i ≡ some tx
      → (script : List ℕ) × (get_elem? (to_list scripts) i ≡ some script)
        × (assert_data_tx c txid (vout + i) script ≡ tx)
  get_elem?-batch txid vout nil i tx e = cc
  get_elem?-batch txid vout (cons script scripts) zero tx e =
      (script, refl, ap (λ v. assert_data_tx c txid v script) (omega arith) ∙ some-injective _ _ e)
  get_elem?-batch txid vout (cons script scripts) (suc i) tx e =
      let (found, at, same) = get_elem?-batch txid (suc vout) scripts i tx e in
      (found, at, ap (λ v. assert_data_tx c txid v found) (omega arith) ∙ same)

  -- With taproot scripts, the assert-data transaction at an index of a chain spends the output of
  -- the pre-assert transaction at that index, and the output that it records for the signature is
  -- the one that the pre-assert transaction has there, in amount and script.
  pub assert_chain-assert_data :
      (claim_txid : ℕ) (chain : AssertChain) (i : ℕ) (tx : Psbt)
      → assert_chain c claim_txid ≡ some chain
      → get_elem? (to_list chain.assert_data) i ≡ some tx
      → (previous_outputs tx ≡ outpoint (txid_of c chain.pre_assert) i ∷ [])
        × (tx.witness_utxos ≡ output_at chain.pre_assert i ∷ [])
  assert_chain-assert_data claim_txid chain i tx asserted at =
      let (scripts, all_scripts, built) = assert_chain-chain_of c ok claim_txid in
      let is_chain = some-injective _ _ (sym built ∙ asserted) in
      let at' = ap (λ (g : AssertChain). get_elem? (to_list g.assert_data) i) is_chain ∙ at in
      let (script, found, is_tx) =
        get_elem?-batch (txid_of c (pre_assert_psbt c claim_txid)) 0 scripts i tx at' in
      let in_commitments = ap (λ list. get_elem? list i) (sym all_scripts) ∙ found in
      let out =
        get_elem?-outs (commitments c) (c.connector_cpfp, c.minimal_non_dust c.connector_cpfp) i
          script ok.committed in_commitments in
      rw (← is_chain, ← is_tx)
        (
          ap (λ v. outpoint (txid_of c (pre_assert_psbt c claim_txid)) v ∷ []) (omega arith),
          ap (λ o. o ∷ []) (sym out),
        )

  first_outputs :
      {n : ℕ} (txid vout : ℕ) (scripts : Array (List ℕ) n)
      → map
          (λ (tx : Psbt). some (assert_data_output c))
          (to_list (assert_data_tx_batch c txid vout scripts))
        ≡ map (λ (tx : Psbt). output_at tx 0) (to_list (assert_data_tx_batch c txid vout scripts))
  first_outputs txid vout nil = refl
  first_outputs txid vout (cons script scripts) =
      ap (◌∷◌ (some (assert_data_output c))) (first_outputs txid (suc vout) scripts)

  first_outpoints :
      (txs : List Psbt)
      → map first_output_of (map (txid_of c) txs)
        ≡ map (λ (tx : Psbt). first_output_of (txid_of c tx)) txs
  first_outpoints [] = refl
  first_outpoints (tx ∷ txs) = ap (◌∷◌ (first_output_of (txid_of c tx))) (first_outpoints txs)

  -- With taproot scripts, the post-assert transaction of a chain spends the first output of every
  -- assert-data transaction, in their order, and the outputs that it records for the signatures are
  -- the ones that those transactions have there.
  pub assert_chain-post_assert :
      (claim_txid : ℕ) (chain : AssertChain)
      → assert_chain c claim_txid ≡ some chain
      → (previous_outputs chain.post_assert.psbt
          ≡ map (λ (tx : Psbt). first_output_of (txid_of c tx)) (to_list chain.assert_data))
        × (chain.post_assert.psbt.witness_utxos
            ≡ map (λ (tx : Psbt). output_at tx 0) (to_list chain.assert_data))
  assert_chain-post_assert claim_txid chain asserted =
      let (scripts, all_scripts, built) = assert_chain-chain_of c ok claim_txid in
      let txid = txid_of c (pre_assert_psbt c claim_txid) in
      let txs = assert_data_tx_batch c txid 0 scripts in
      rw (← some-injective _ _ (sym built ∙ asserted)) (
        previous_outputs-create_tx_ins _ ∙ first_outpoints (to_list txs),
        spent_outputs c ok txs (assert_data_output c) ∙ first_outputs txid 0 scripts,
      )
