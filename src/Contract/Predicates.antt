-- ===== src/Contract/Predicates.antt =====
-- The tests on transactions (crates/duty-tracker/src/predicates.rs).
use strata_bridge.Prelude.{
  ℕ, ◌+◌, ◌-◌, ◌/◌, ◌%◌, Bool, false, ◌&&◌, Option, none, some, List, [], ◌∷◌, ◌==◌, ltb, leb,
  if◌then◌else◌, Run, done, panicked, first?, get_elem?, length, take, drop, starts_with, bytes_eq,
}
use strata_bridge.TxGraph.{challenge_vout}
use strata_bridge.Bitcoin.{TxIn, TxOut, Transaction}
use strata_bridge.Contract.Types.{PegOutGraphParams}
use strata_bridge.Contract.Duties.{Calls, Instruction, op, push_bytes}

-- crates/tx-graph/src/transactions/claim.rs and disprove.rs
abbrev pub post_assert_input_index : ℕ
post_assert_input_index = 1

abbrev pub op_return : ℕ
op_return = 106

-- `previous_output == OutPoint::new(txid, vout)`, and `false` for no input.
abbrev pub spends : Option TxIn → ℕ → ℕ → Bool
spends none txid vout = false
spends (some txin) txid vout =
    txin.previous_output.txid == txid && txin.previous_output.vout == vout

unfoldable pub is_challenge : ℕ → Transaction → Bool
is_challenge claim_txid tx =
    spends (first? tx.input) claim_txid challenge_vout && length tx.output == 1

unfoldable pub is_disprove : ℕ → Transaction → Bool
is_disprove post_assert_txid tx =
    spends (get_elem? tx.input post_assert_input_index) post_assert_txid 0
    && (length tx.input == 2 && length tx.output == 2)

-- The data of the second instruction, an instruction that cannot be read being `none`.
abbrev pub pushed : List (Option Instruction) → Option (List ℕ)
pushed (some (push_bytes bytes) ∷ rest) = some bytes
pushed _ = none

abbrev pub returned : List (Option Instruction) → Option (List ℕ)
returned (some (op code) ∷ rest) = if code == op_return then pushed rest else none
returned _ = none

unfoldable pub op_return_data : Calls → List ℕ → Option (List ℕ)
op_return_data calls script = returned (calls.instructions script)

-- `u32::to_be_bytes`.
unfoldable pub to_be_bytes : ℕ → List ℕ
to_be_bytes n = n / 16777216 % 256 ∷ n / 65536 % 256 ∷ n / 256 % 256 ∷ n % 256 ∷ []

-- `metadata.get(offset..offset + bytes.len()) == Some(bytes)`.
unfoldable pub has_at : List ℕ → ℕ → List ℕ → Bool
has_at metadata offset bytes =
    leb (offset + length bytes) (length metadata)
    && bytes_eq (take (length bytes) (drop offset metadata)) bytes

unfoldable pub first_output_ok : Option (List ℕ) → Option TxOut → ℕ → Bool
first_output_ok (some script) (some output) output_amount =
    bytes_eq output.script_pubkey script && output.value == output_amount
first_output_ok _ _ output_amount = false

unfoldable pub metadata_ok :
    Calls → List ℕ → (operator_idx deposit_idx deposit_txid : ℕ) → List ℕ → Bool
unfolding to_be_bytes has_at
metadata_ok calls tag operator_idx deposit_idx deposit_txid metadata =
    let operator_id_offset = length tag in
    let deposit_id_offset = operator_id_offset + length (to_be_bytes operator_idx) in
    let deposit_txid_offset = deposit_id_offset + length (to_be_bytes deposit_idx) in
    starts_with metadata tag
    && (has_at metadata operator_id_offset (to_be_bytes operator_idx)
        && (has_at metadata deposit_id_offset (to_be_bytes deposit_idx)
            && has_at metadata deposit_txid_offset (calls.serialize_txid deposit_txid)))

unfoldable pub second_output_ok :
    Calls → List ℕ → (operator_idx deposit_idx deposit_txid : ℕ) → Option TxOut → Bool
unfolding op_return_data metadata_ok
second_output_ok calls tag operator_idx deposit_idx deposit_txid none = false
second_output_ok calls tag operator_idx deposit_idx deposit_txid (some output) =
    elim (op_return_data calls output.script_pubkey) [
      | none ↦ false
      | some metadata ↦ metadata_ok calls tag operator_idx deposit_idx deposit_txid metadata
    ]

-- The subtraction of two amounts panics below zero, when the predicate is made.
unfoldable pub is_fulfillment_tx :
    Calls
    → (network : ℕ) → PegOutGraphParams
    → (operator_idx deposit_idx deposit_txid recipient : ℕ) → Transaction
    → Run Bool
unfolding first_output_ok second_output_ok
is_fulfillment_tx calls network params operator_idx deposit_idx deposit_txid recipient tx =
    if ltb params.deposit_amount params.operator_fee
    then panicked
    else done (
        first_output_ok (calls.recipient_script network recipient) (first? tx.output)
          (params.deposit_amount - params.operator_fee)
        && second_output_ok calls params.tag operator_idx deposit_idx deposit_txid
            (get_elem? tx.output 1))
