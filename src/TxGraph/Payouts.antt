-- ===== src/TxGraph/Payouts.antt =====
-- The transactions that spend a claim or a post-assert transaction besides the assert chain
-- (crates/tx-graph/src/transactions/challenge.rs, payout_optimistic.rs, payout.rs, disprove.rs and
-- slash_stake.rs).
use strata_bridge.Prelude.{
  ℕ, zero, suc, ◌+◌, ◌-◌, ◌*◌, ◌%◌, ◌^◌, if◌then◌else◌, ltb, Bool, Option, none, some, List, [],
  ◌∷◌, map,
}
use strata_bridge.Bitcoin.{OutPoint, TxIn, TxOut}
use strata_bridge.PogMusig.{num_assert_data_tx, ◌>>=◌}
use strata_bridge.StakeChain.{
  segwit_min_amount, funding_amount, create_tx_ins, create_tx_outs, create_tx,
}
use strata_bridge.TxGraph.{Scripts, Psbt, assign_utxos, unsigned, checked_sub, value, outpoint}

-- The scripts of the connectors that only these transactions read, the script of a key that is
-- spent by a signature, and the timelocks.
pub record PayoutScripts : Type 0 where
  pub connector_p : List ℕ
  pub connector_stake : List ℕ
  pub burn : List ℕ
  pub key_spend : (key : ℕ) → List ℕ
  pub tweaked_key : (key : ℕ) → List ℕ
  pub payout_optimistic_timelock : ℕ
  pub payout_timelock : ℕ

pub record ChallengeTxInput : Type 0 where
  pub claim_outpoint : OutPoint
  pub challenge_amt : ℕ
  pub operator_pubkey : ℕ

pub record PayoutOptimisticData : Type 0 where
  pub claim_txid : ℕ
  pub deposit_txid : ℕ
  pub stake_outpoint : OutPoint
  pub deposit_amount : ℕ
  pub operator_key : ℕ

pub record PayoutData : Type 0 where
  pub post_assert_txid : ℕ
  pub deposit_txid : ℕ
  pub claim_outpoint : OutPoint
  pub stake_outpoint : OutPoint
  pub deposit_amount : ℕ
  pub operator_key : ℕ

pub record DisproveData : Type 0 where
  pub post_assert_txid : ℕ
  pub stake_outpoint : OutPoint

pub record SlashStakeData : Type 0 where
  pub claim_outpoint : OutPoint
  pub stake_outpoint : OutPoint

abbrev pub txout : List ℕ → ℕ → TxOut
txout script_pubkey value = record { value = value; script_pubkey = script_pubkey }

-- `tx_ins[i].sequence = sequence`, at an index that is in range.
abbrev pub set_sequence : (i sequence : ℕ) → List TxIn → List TxIn
set_sequence i sequence [] = []
set_sequence zero sequence (txin ∷ ins) = record txin { sequence = sequence } ∷ ins
set_sequence (suc i) sequence (txin ∷ ins) = txin ∷ set_sequence i sequence ins

-- `unsigned` for a transaction that keeps the version 2.
abbrev pub unsigned_v2 : List TxIn → List (List ℕ × ℕ) → List TxOut → Psbt
unsigned_v2 ins scripts_and_amounts prevouts = record {
  unsigned_tx = create_tx ins (create_tx_outs scripts_and_amounts);
  witness_utxos = assign_utxos ins prevouts;
}

-- `sum::<Amount>` of `u64`s, where `debug` says whether overflow is checked: it panics then, and
-- wraps otherwise.
abbrev pub add_amount : (debug : Bool) → ℕ → ℕ → Option ℕ
add_amount debug a b =
    if ltb (a + b) (2 ^ 64) then some (a + b) else if debug then none else some ((a + b) % 2 ^ 64)

unfoldable pub sum_amounts : (debug : Bool) → ℕ → List ℕ → Option ℕ
sum_amounts debug acc [] = some acc
sum_amounts debug acc (a ∷ rest) = do next ← add_amount debug acc a; sum_amounts debug next rest

module _ (c : Scripts) (d : PayoutScripts) where
  -- The output of a script that holds its least amount.
  abbrev pub dust : List ℕ → TxOut
  dust script = txout script (c.minimal_non_dust script)

  unfoldable pub challenge_tx : ChallengeTxInput → Psbt
  challenge_tx input =
      unsigned_v2 (create_tx_ins (input.claim_outpoint ∷ []))
        ((d.tweaked_key input.operator_pubkey, input.challenge_amt) ∷ []) (dust c.connector_c1 ∷ [])

  abbrev pub paying : (operator_key : ℕ) → List TxIn → List TxOut → (payout_amount : ℕ) → Psbt
  paying operator_key tx_ins prevouts payout_amount =
      unsigned tx_ins
        ((d.key_spend operator_key, payout_amount)
          ∷ (c.connector_cpfp, c.minimal_non_dust c.connector_cpfp)
          ∷ [])
        prevouts

  -- A payout gives the operator all that the inputs bring, less the CPFP output.
  unfoldable pub pay_out : (debug : Bool) (operator_key : ℕ) → List TxIn → List TxOut → Option Psbt
  unfolding sum_amounts
  pay_out debug operator_key tx_ins prevouts = do
    total ← sum_amounts debug 0 (map value prevouts)
    payout_amount ← checked_sub total (c.minimal_non_dust c.connector_cpfp)
    some (paying operator_key tx_ins prevouts payout_amount)

  abbrev pub payout_optimistic_prevouts : PayoutOptimisticData → List TxOut
  payout_optimistic_prevouts data_in =
      txout c.connector_n_of_n data_in.deposit_amount
      ∷ txout c.connector_c0 (funding_amount - segwit_min_amount * 3)
      ∷ dust c.connector_c1
      ∷ dust c.connector_n_of_n
      ∷ dust d.connector_p
      ∷ []

  abbrev pub payout_optimistic_tx_ins : PayoutOptimisticData → List TxIn
  payout_optimistic_tx_ins data_in = set_sequence 2 (d.payout_optimistic_timelock % 65536) (
      create_tx_ins (
        outpoint data_in.deposit_txid 0
        ∷ outpoint data_in.claim_txid 0
        ∷ outpoint data_in.claim_txid 1
        ∷ outpoint data_in.claim_txid 2
        ∷ data_in.stake_outpoint
        ∷ []))

  unfoldable pub payout_optimistic_tx : Bool → PayoutOptimisticData → Option Psbt
  payout_optimistic_tx debug data_in =
      pay_out debug data_in.operator_key (payout_optimistic_tx_ins data_in)
        (payout_optimistic_prevouts data_in)

  abbrev pub payout_prevouts : PayoutData → List TxOut
  payout_prevouts data_in =
      txout c.connector_n_of_n data_in.deposit_amount
      ∷ txout c.connector_a3 (segwit_min_amount * (num_assert_data_tx - 1))
      ∷ dust c.connector_n_of_n
      ∷ dust d.connector_p
      ∷ []

  abbrev pub payout_tx_ins : PayoutData → List TxIn
  payout_tx_ins data_in = set_sequence 1 (d.payout_timelock % 65536) (
      create_tx_ins (
        outpoint data_in.deposit_txid 0
        ∷ outpoint data_in.post_assert_txid 0
        ∷ data_in.claim_outpoint
        ∷ data_in.stake_outpoint
        ∷ []))

  unfoldable pub payout_tx : Bool → PayoutData → Option Psbt
  payout_tx debug data_in =
      pay_out debug data_in.operator_key (payout_tx_ins data_in) (payout_prevouts data_in)

  unfoldable pub disprove_tx : DisproveData → (stake_amount burn_amount : ℕ) → Psbt
  disprove_tx data_in stake_amount burn_amount =
      unsigned_v2
        (create_tx_ins (data_in.stake_outpoint ∷ outpoint data_in.post_assert_txid 0 ∷ []))
        ((d.burn, burn_amount) ∷ [])
        (txout d.connector_stake stake_amount
          ∷ txout c.connector_a3 (segwit_min_amount * (num_assert_data_tx - 1))
          ∷ [])

  abbrev pub slashing : SlashStakeData → (stake_amount burned : ℕ) → Psbt
  slashing data_in stake_amount burned =
      unsigned_v2 (create_tx_ins (data_in.claim_outpoint ∷ data_in.stake_outpoint ∷ []))
        ((d.burn, segwit_min_amount) ∷ (d.burn, burned) ∷ [])
        (dust c.connector_n_of_n ∷ txout d.connector_stake stake_amount ∷ [])

  unfoldable pub slash_stake_tx : SlashStakeData → (stake_amount burn_amount : ℕ) → Option Psbt
  slash_stake_tx data_in stake_amount burn_amount = do
    burned ← checked_sub burn_amount segwit_min_amount
    some (slashing data_in stake_amount burned)
