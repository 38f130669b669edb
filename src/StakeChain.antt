-- ===== src/StakeChain.antt =====
-- Stake transactions and the chain that they form (crates/stake-chain/src/transactions/stake.rs,
-- crates/stake-chain/src/stake_chain.rs, and the functions of
-- crates/primitives/src/scripts/general.rs that build a transaction). Chain is about the chain.
-- Machine has the state machine over the chains of all operators; Coherent, Cache, Steps, Setup and
-- Restore are about it.
pub mod Chain
pub mod Machine
pub mod Coherent
pub mod Cache
pub mod Steps
pub mod Setup
pub mod Restore
mod Examples
use strata_bridge.Prelude.{
  ℕ, zero, suc, ◌+◌, ◌-◌, ◌%◌, Bool, true, false, Option, none, some, List, [], ◌∷◌, map, length,
  first?, get_elem?,
}
use strata_bridge.Prelude.BTreeMap.{BTreeMap, get, values}
use strata_bridge.Bitcoin.{OutPoint, TxIn, TxOut, Transaction}
use mathlib.Core.Option

pub record StakeTxData : Type 0 where
  pub operator_funds : OutPoint
  pub hash : ℕ
  pub withdrawal_fulfillment_pk : ℕ
  pub operator_pubkey : ℕ

pub record StakeChainInputs : Type 0 where
  pub stake_inputs : BTreeMap StakeTxData
  pub pre_stake_outpoint : OutPoint

pub record StakeChainParams : Type 0 where
  pub stake_amount : ℕ
  pub burn_amount : ℕ
  pub delta : ℕ
  pub slash_stake_count : ℕ

-- What the connectors of crates/connectors give at the context and the parameters of the chain: the
-- script of an output, the least amount that is not dust, and how a stake output is spent.
pub record Connectors : Type 0 where
  pub compute_txid : Transaction → ℕ
  pub kickoff : (withdrawal_fulfillment_pk : ℕ) → List ℕ
  pub hashlock_payout : (hash : ℕ) → List ℕ
  pub stake : (operator_pubkey hash : ℕ) → List ℕ
  pub cpfp : (operator_pubkey : ℕ) → List ℕ
  pub minimal_non_dust : List ℕ → ℕ
  pub spend_info : (operator_pubkey hash : ℕ) → ℕ

pub data TaprootWitness : Type 0 where
  key : TaprootWitness
  script : ℕ → TaprootWitness

-- The psbt by its unsigned transaction and the `witness_utxo` of its second input.
pub record StakeTx : Type 0 where
  pub unsigned_tx : Transaction
  pub prev_stake_out : Option TxOut
  pub hash : ℕ
  pub witnesses : TaprootWitness × TaprootWitness

pub data StakeTxKind : Type 0 where
  head tail : StakeTx → StakeTxKind

abbrev pub stake_vout : ℕ
stake_vout = 2

abbrev pub withdrawal_fulfillment_vout : ℕ
withdrawal_fulfillment_vout = 0

abbrev pub segwit_min_amount : ℕ
segwit_min_amount = 330

abbrev pub funding_amount : ℕ
funding_amount = 27060

abbrev pub operator_funds_amount : ℕ
operator_funds_amount = 27720

-- `Sequence::ENABLE_RBF_NO_LOCKTIME`.
abbrev pub enable_rbf_no_locktime : ℕ
enable_rbf_no_locktime = 4294967293

abbrev pub create_tx_ins : List OutPoint → List TxIn
create_tx_ins = map λ utxo. record {
  previous_output = utxo;
  script_sig = [];
  sequence = enable_rbf_no_locktime;
  witness = [];
}

abbrev pub create_tx_outs : List (List ℕ × ℕ) → List TxOut
create_tx_outs =
    map λ (script_pubkey, value). record { value = value; script_pubkey = script_pubkey }

abbrev pub create_tx : List TxIn → List TxOut → Transaction
create_tx tx_ins tx_outs = record { version = 2; lock_time = 0; input = tx_ins; output = tx_outs }

-- `tx.input[1].sequence = sequence`.
abbrev pub set_second_sequence : ℕ → List TxIn → List TxIn
set_second_sequence sequence (a ∷ b ∷ rest) = a ∷ record b { sequence = sequence } ∷ rest
set_second_sequence sequence ins = ins

module _ (c : Connectors) (params : StakeChainParams) where
  -- `StakeTx::<Head>::new`.
  unfoldable pub new_head :
      (hash withdrawal_fulfillment_pk : ℕ) (pre_stake operator_funds : OutPoint)
      (operator_pubkey : ℕ)
      → StakeTx
  new_head hash withdrawal_fulfillment_pk pre_stake operator_funds operator_pubkey =
      let tx = create_tx (create_tx_ins (operator_funds ∷ pre_stake ∷ [])) (
        create_tx_outs (
          (c.kickoff withdrawal_fulfillment_pk, operator_funds_amount - 660)
          ∷ (c.hashlock_payout hash, c.minimal_non_dust (c.hashlock_payout hash))
          ∷ (c.stake operator_pubkey hash, params.stake_amount)
          ∷ (c.cpfp operator_pubkey, c.minimal_non_dust (c.cpfp operator_pubkey))
          ∷ [])) in
      record {
        unsigned_tx = record tx { version = 3 };
        prev_stake_out = none;
        hash = hash;
        witnesses = (key, key);
      }

  -- `StakeTx::<Tail>::new`.
  unfoldable pub new_tail : StakeTxData → (prev_hash : ℕ) (prev_stake : OutPoint) → StakeTx
  new_tail input prev_hash prev_stake =
      let tx =
        create_tx
          (set_second_sequence (params.delta % 65536)
            (create_tx_ins (input.operator_funds ∷ prev_stake ∷ [])))
          (create_tx_outs (
            (c.kickoff input.withdrawal_fulfillment_pk, funding_amount)
            ∷ (c.hashlock_payout input.hash, c.minimal_non_dust (c.hashlock_payout input.hash))
            ∷ (c.stake input.operator_pubkey input.hash, params.stake_amount)
            ∷ (c.cpfp input.operator_pubkey, segwit_min_amount)
            ∷ [])) in
      record {
        unsigned_tx = record tx { version = 3 };
        prev_stake_out = some (record {
          value = params.stake_amount;
          script_pubkey = c.stake input.operator_pubkey prev_hash;
        });
        hash = input.hash;
        witnesses = (key, script (c.spend_info input.operator_pubkey prev_hash));
      }

  abbrev pub txid_of : StakeTx → ℕ
  txid_of tx = c.compute_txid tx.unsigned_tx

  -- `StakeTx::advance`, whose body is written out again in the source.
  unfoldable pub advance : StakeTx → StakeTxData → StakeTx
  advance prev input =
      let prev_stake : OutPoint = record { txid = txid_of prev; vout = stake_vout } in
      let tx =
        create_tx
          (set_second_sequence (params.delta % 65536)
            (create_tx_ins (input.operator_funds ∷ prev_stake ∷ [])))
          (create_tx_outs (
            (c.kickoff input.withdrawal_fulfillment_pk, funding_amount)
            ∷ (c.hashlock_payout input.hash, c.minimal_non_dust (c.hashlock_payout input.hash))
            ∷ (c.stake input.operator_pubkey input.hash, params.stake_amount)
            ∷ (c.cpfp input.operator_pubkey, segwit_min_amount)
            ∷ [])) in
      record {
        unsigned_tx = record tx { version = 3 };
        prev_stake_out = some (record {
          value = params.stake_amount;
          script_pubkey = c.stake input.operator_pubkey prev.hash;
        });
        hash = input.hash;
        witnesses = (key, script (c.spend_info input.operator_pubkey prev.hash));
      }

-- `StakeTxKind::compute_txid`.
abbrev pub kind_txid : Connectors → StakeTxKind → ℕ
kind_txid c (head tx) = c.compute_txid tx.unsigned_tx
kind_txid c (tail tx) = c.compute_txid tx.unsigned_tx

pub record StakeChain : Type 0 where
  pub head : Option StakeTx
  pub tail : List StakeTx

module _ (c : Connectors) (params : StakeChainParams) where
  -- The loop of `StakeChain::new` over `rounds` indices from `index` on, after `last`.
  unfoldable pub advance_all : BTreeMap StakeTxData → (rounds index : ℕ) → StakeTx → List StakeTx
  unfolding advance get
  advance_all inputs zero index last = []
  advance_all inputs (suc rounds) index last = elim (get index inputs) [
    | none ↦ []
    | some input ↦
        let next = advance c params last input in next ∷ advance_all inputs rounds (suc index) next
  ]

  abbrev pub first_stake : StakeChainInputs → StakeTxData → StakeTx
  first_stake inputs first =
      new_head c params first.hash first.withdrawal_fulfillment_pk inputs.pre_stake_outpoint
        first.operator_funds first.operator_pubkey

  unfoldable pub new : StakeChainInputs → StakeChain
  unfolding advance_all new_head
  new inputs = elim (get 0 inputs.stake_inputs) [
    | none ↦ record { head = none; tail = [] }
    | some first ↦ elim (get 1 inputs.stake_inputs) [
      | none ↦ record { head = some (first_stake inputs first); tail = [] }
      | some second ↦
          let next = advance c params (first_stake inputs first) second in
          record {
            head = some (first_stake inputs first);
            tail = next ∷ advance_all inputs.stake_inputs (length inputs.stake_inputs - 2) 2 next;
          }
    ]
  ]

abbrev pub len : StakeChain → ℕ
len chain = elim chain.head [ none ↦ 0 | some first ↦ 1 + length chain.tail ]

abbrev pub is_empty : StakeChain → Bool
is_empty chain = elim chain.head [ none ↦ true | some first ↦ false ]

abbrev pub stake_hashes : StakeChainInputs → List ℕ
stake_hashes inputs = map (λ (input : StakeTxData). input.hash) (values inputs.stake_inputs)

abbrev pub stake_hash_at_index : StakeChainInputs → ℕ → Option ℕ
stake_hash_at_index inputs index =
    Option.map (λ (input : StakeTxData). input.hash) (get_elem? (values inputs.stake_inputs) index)

abbrev pub operator_funds : StakeChainInputs → List OutPoint
operator_funds inputs =
    map (λ (input : StakeTxData). input.operator_funds) (values inputs.stake_inputs)

abbrev pub operator_funds_at_index : StakeChainInputs → ℕ → Option OutPoint
operator_funds_at_index inputs index =
    Option.map (λ (input : StakeTxData). input.operator_funds)
      (get_elem? (values inputs.stake_inputs) index)

abbrev pub operator_pubkey : StakeChainInputs → Option ℕ
operator_pubkey inputs =
    Option.map (λ (input : StakeTxData). input.operator_pubkey)
      (first? (values inputs.stake_inputs))

abbrev pub pre_stake_prevout : StakeChainInputs → OutPoint
pre_stake_prevout inputs = inputs.pre_stake_outpoint
