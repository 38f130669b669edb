-- ===== src/TxGraph/Balance.antt =====
-- The claim and the transactions of the assert chain are built, and what they pay
-- (crates/tx-graph/src/transactions/claim.rs, assert_chain.rs).
use strata_bridge.Prelude.{
  ℕ, zero, suc, ◌+◌, ◌*◌, Option, none, some, List, [], ◌∷◌, ◌++◌, map, length, length-append, All,
  ◌≡◌, refl, ap, ◌∙◌, arith,
}
use strata_bridge.Prelude.Array.{
  Array, nil, cons, to_list, from_const, take_array-to_list, length-to_list,
}
use strata_bridge.Bitcoin.{OutPoint, TxOut}
use strata_bridge.PogMusig.{num_assert_data_tx}
use strata_bridge.StakeChain.{create_tx_ins, create_tx_outs}
use strata_bridge.TxGraph.{
  Scripts, Psbt, ClaimTx, AssertChain, assign_utxos, sum, claim_tx, claim_paying, commitments,
  commitment_output, amount_of, scripts_and_amounts, pre_assert_psbt, pre_assert_tx,
  assert_data_tx_batch, txid_of, first_output_of, assert_data_output, post_assert_paying,
  post_assert_tx, locking_script, assert_chain, value,
}

-- The scripts of the connectors are taproot outputs, whose least amount is 330.
pub record IsTaproot (c : Scripts) : Type 0 where
  pub c1 : c.minimal_non_dust c.connector_c1 ≡ 330
  pub n_of_n : c.minimal_non_dust c.connector_n_of_n ≡ 330
  pub cpfp : c.minimal_non_dust c.connector_cpfp ≡ 330
  pub committed : All (λ script. c.minimal_non_dust script ≡ 330) (commitments c)

abbrev utxo_value : Option TxOut → ℕ
utxo_value none = 0
utxo_value (some utxo) = utxo.value

-- What the inputs of a transaction bring is what its outputs take.
abbrev pub IsBalanced : Psbt → Type 0
IsBalanced psbt = sum (map value psbt.unsigned_tx.output) ≡ sum (map utxo_value psbt.witness_utxos)

length-commitments : (c : Scripts) → length (commitments c) ≡ 39
length-commitments c = omega (
  arith,
  length-to_list c.connector_a256_batch_1,
  length-to_list c.connector_a256_batch_2,
  length-to_list c.connector_a_hash_batch_1,
  length-to_list c.connector_a_hash_batch_2,
  length-append (to_list c.connector_a_hash_batch_1) (to_list c.connector_a_hash_batch_2),
  length-append (to_list c.connector_a256_batch_2)
      (to_list c.connector_a_hash_batch_1 ++ to_list c.connector_a_hash_batch_2),
  length-append (to_list c.connector_a256_batch_1) (
      to_list c.connector_a256_batch_2
      ++ (to_list c.connector_a_hash_batch_1 ++ to_list c.connector_a_hash_batch_2)),
)

module _ (c : Scripts) where
  sum-amounts :
      (scripts : List (List ℕ))
      → All (λ script. c.minimal_non_dust script ≡ 330) scripts
      → (last : List ℕ × ℕ)
      → sum (map amount_of (map (commitment_output c) scripts ++ (last ∷ [])))
        ≡ 660 * length scripts + amount_of last
  sum-amounts [] h last = omega arith
  sum-amounts (script ∷ scripts) (e, h) last = omega (arith, e, sum-amounts scripts h last)

  length-outs :
      (scripts : List (List ℕ)) (last : List ℕ × ℕ)
      → length (map (commitment_output c) scripts ++ (last ∷ [])) ≡ suc (length scripts)
  length-outs [] last = refl
  length-outs (script ∷ scripts) last = ap suc (length-outs scripts last)

  locking_scripts :
      (scripts : List (List ℕ)) (last : List ℕ) (amount : ℕ)
      → map locking_script
          (create_tx_outs (map (commitment_output c) scripts ++ ((last, amount) ∷ [])))
        ≡ scripts ++ (last ∷ [])
  locking_scripts [] last amount = refl
  locking_scripts (script ∷ scripts) last amount =
      ap (◌∷◌ script) (locking_scripts scripts last amount)

value-create_tx_outs :
    (outs : List (List ℕ × ℕ)) → map value (create_tx_outs outs) ≡ map amount_of outs
value-create_tx_outs [] = refl
value-create_tx_outs ((script, amount) ∷ outs) = ap (◌∷◌ amount) (value-create_tx_outs outs)

to_array {ℓ} :
    {A : Type ℓ} (n : ℕ) (xs : List A) → length xs ≡ n → (array : Array A n) × (to_list array ≡ xs)
to_array zero [] h = (nil, refl)
to_array zero (x ∷ xs) h = absurd (omega arith)
to_array (suc n) [] h = absurd (omega arith)
to_array (suc n) (x ∷ xs) h =
    let (array, e) = to_array n xs (omega arith) in (cons x array, ap (◌∷◌ x) e)

module _ (c : Scripts) (ok : IsTaproot c) where
  total_amount : sum (map amount_of (scripts_and_amounts c)) ≡ 26070
  total_amount = omega (
    arith,
    ok.cpfp,
    length-commitments c,
    sum-amounts c (commitments c) ok.committed
        (c.connector_cpfp, c.minimal_non_dust c.connector_cpfp),
  )

  pub claim_tx-paying :
      (stake_outpoint : OutPoint)
      → claim_tx c stake_outpoint ≡ some (claim_paying c stake_outpoint 26070)
  unfolding claim_tx
  claim_tx-paying stake_outpoint = rw (ok.c1, ok.n_of_n, ok.cpfp)

  pub pre_assert_tx-psbt :
      (claim_txid : ℕ) → pre_assert_tx c claim_txid ≡ some (pre_assert_psbt c claim_txid)
  unfolding pre_assert_tx
  pre_assert_tx-psbt claim_txid = rw (
    total_amount,
    length-outs c (commitments c) (c.connector_cpfp, c.minimal_non_dust c.connector_cpfp),
    length-commitments c,
  )

  post_assert_tx-paying :
      (txids : List ℕ) → post_assert_tx c txids ≡ some (post_assert_paying c txids 12540)
  unfolding post_assert_tx
  post_assert_tx-paying txids = rw ok.cpfp

  abbrev pub chain_of : ℕ → Array (List ℕ) num_assert_data_tx → AssertChain
  chain_of claim_txid scripts =
      let assert_data =
        assert_data_tx_batch c (txid_of c (pre_assert_psbt c claim_txid)) 0 scripts in
      record {
        pre_assert = pre_assert_psbt c claim_txid;
        assert_data = assert_data;
        post_assert = post_assert_paying c (map (txid_of c) (to_list assert_data)) 12540;
      }

  pub assert_chain-chain_of :
      (claim_txid : ℕ)
      → (scripts : Array (List ℕ) num_assert_data_tx) × (to_list scripts ≡ commitments c)
        × (assert_chain c claim_txid ≡ some (chain_of claim_txid scripts))
  unfolding assert_chain
  assert_chain-chain_of claim_txid =
      let (scripts, e) = to_array 39 (commitments c) (length-commitments c) in
      (
        scripts,
        e,
        rw (
          pre_assert_tx-psbt claim_txid,
          locking_scripts c (commitments c) c.connector_cpfp (c.minimal_non_dust c.connector_cpfp),
          ← e,
          take_array-to_list scripts (c.connector_cpfp ∷ []),
          post_assert_tx-paying,
        ),
      )

  pub spent_outputs :
      {n : ℕ} (txs : Array Psbt n) (out : TxOut)
      → assign_utxos
          (create_tx_ins (map first_output_of (map (txid_of c) (to_list txs))))
          (to_list (from_const n out))
        ≡ map (λ tx. some out) (to_list txs)
  spent_outputs nil out = refl
  spent_outputs (cons tx txs) out = ap (◌∷◌ (some out)) (spent_outputs txs out)

  sum-spent :
      (txs : List Psbt) (out : TxOut)
      → out.value ≡ 330
      → sum (map utxo_value (map (λ (tx : Psbt). some out) txs)) ≡ 330 * length txs
  sum-spent [] out h = omega arith
  sum-spent (tx ∷ txs) out h = omega (arith, h, sum-spent txs out h)

  batch-IsBalanced :
      {n : ℕ} (txid vout : ℕ) (scripts : Array (List ℕ) n)
      → All IsBalanced (to_list (assert_data_tx_batch c txid vout scripts))
  batch-IsBalanced txid vout nil = tt
  batch-IsBalanced txid vout (cons script scripts) =
      (omega (arith, ok.n_of_n, ok.cpfp), batch-IsBalanced txid (suc vout) scripts)

  pre_assert-IsBalanced : (claim_txid : ℕ) → IsBalanced (pre_assert_psbt c claim_txid)
  pre_assert-IsBalanced claim_txid =
      ap sum (value-create_tx_outs (scripts_and_amounts c)) ∙ total_amount

  post_assert-IsBalanced :
      (txs : Array Psbt num_assert_data_tx)
      → IsBalanced (post_assert_paying c (map (txid_of c) (to_list txs)) 12540).psbt
  post_assert-IsBalanced txs =
      let spent = assert_data_output c in
      rw (
        spent_outputs txs spent,
        sum-spent (to_list txs) spent ok.n_of_n,
        length-to_list txs,
        ok.cpfp,
      )

  -- With taproot scripts, the claim and the assert chain on top of it are always built, and none of
  -- their transactions pays a fee: what the inputs are recorded to bring is what the outputs take.
  pub claim_and_assert_chain-IsBalanced :
      (stake_outpoint : OutPoint)
      → (claim : ClaimTx) × (chain : AssertChain) × (claim_tx c stake_outpoint ≡ some claim)
        × (assert_chain c (txid_of c claim.psbt) ≡ some chain)
        × IsBalanced claim.psbt
        × IsBalanced chain.pre_assert
        × All IsBalanced (to_list chain.assert_data)
        × IsBalanced chain.post_assert.psbt
  claim_and_assert_chain-IsBalanced stake_outpoint =
      let claim = claim_paying c stake_outpoint 26070 in
      let (scripts, e, built) = assert_chain-chain_of (txid_of c claim.psbt) in
      let chain = chain_of (txid_of c claim.psbt) scripts in
      (
        claim,
        chain,
        claim_tx-paying stake_outpoint,
        built,
        omega (arith, ok.c1, ok.n_of_n, ok.cpfp),
        pre_assert-IsBalanced (txid_of c claim.psbt),
        batch-IsBalanced (txid_of c (pre_assert_psbt c (txid_of c claim.psbt))) 0 scripts,
        post_assert-IsBalanced chain.assert_data,
      )
