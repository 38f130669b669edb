-- ===== src/Contract/Request.antt =====
-- The recognition of a deposit request (deposit_request_info of
-- crates/duty-tracker/src/predicates.rs, and DepositRequestData of
-- crates/tx-graph/src/transactions/deposit.rs).
use strata_bridge.Prelude.{
  ℕ, ◌+◌, ◌<◌, Bool, true, not, Option, none, some, List, [], ◌∷◌, ◌++◌, ◌≡◌, refl, ap, arith, ◌==◌,
  leb, if◌then◌else◌, Run, done, panicked, first?, get_elem?, length, length-append, take, drop,
  starts_with, bytes_eq,
}
use mathlib.Core.Path.{subst}
use strata_bridge.Bitcoin.{OutPoint, TxOut, Transaction}
use strata_bridge.Contract.Types.{PegOutGraphParams}
use strata_bridge.Contract.Duties.{Calls}
use strata_bridge.Contract.Predicates.{op_return_data}

pub record DepositRequestData : Type 0 where
  pub deposit_request_outpoint : OutPoint
  pub stake_index : ℕ
  pub ee_address : List ℕ
  pub total_amount : ℕ
  pub x_only_public_key : ℕ
  pub original_script_pubkey : List ℕ

abbrev pub schnorr_public_key_size : ℕ
schnorr_public_key_size = 32

-- What is there of the data after the tag.
unfoldable pub magic_tagged_data : Calls → (tag script : List ℕ) → Option (List ℕ)
magic_tagged_data calls tag script = elim (op_return_data calls script) [
  | none ↦ none
  | some bytes ↦ if starts_with bytes tag then some (drop (length tag) bytes) else none
]

-- `from_slice` is `XOnlyPublicKey::from_slice`, and `take_back_script` the script of the address
-- that the key of the bridge and the script of the user's take-back give at the network.
module _ (calls : Calls) (from_slice : List ℕ → Option ℕ)
    (take_back_script : (key refund_delay : ℕ) → List ℕ) where
  unfoldable pub validate : DepositRequestData → ℕ → Bool
  validate request refund_delay =
      bytes_eq (take_back_script request.x_only_public_key refund_delay)
        request.original_script_pubkey

  -- The request that the data after the tag stands for, its first output known.
  unfoldable pub request_of_data :
      (address_length stake_index refund_delay : ℕ)
      → Transaction
      → TxOut
      → List ℕ
      → Run (Option DepositRequestData)
  request_of_data address_length stake_index refund_delay tx out meta =
      if not (length meta == schnorr_public_key_size + address_length)
      then done none
      else elim (from_slice (take schnorr_public_key_size meta)) [
        | none ↦ panicked
        | some key ↦
            let request : DepositRequestData = record {
              deposit_request_outpoint = record { txid = calls.compute_txid tx; vout = 0 };
              stake_index = stake_index;
              ee_address = take address_length (drop schnorr_public_key_size meta);
              total_amount = out.value;
              x_only_public_key = key;
              original_script_pubkey = out.script_pubkey;
            } in
            if validate request refund_delay then done (some request) else done none
      ]

  unfoldable pub deposit_request_info :
      (address_length : ℕ)
      → PegOutGraphParams
      → (stake_index : ℕ) → Transaction
      → Run (Option DepositRequestData)
  deposit_request_info address_length params stake_index tx = elim (first? tx.output) [
    | none ↦ done none
    | some out ↦
        if leb out.value params.deposit_amount then done none else elim (get_elem? tx.output 1) [
          | none ↦ done none
          | some second ↦ elim (magic_tagged_data calls params.tag second.script_pubkey) [
            | none ↦ done none
            | some meta ↦ request_of_data address_length stake_index params.refund_delay tx out meta
          ]
        ]
  ]

module _ {ℓ} {A : Type ℓ} where
  take-append : (xs ys : List A) → take (length xs) (xs ++ ys) ≡ xs
  take-append [] ys = refl
  take-append (x ∷ xs) ys = ap (λ zs. x ∷ zs) (take-append xs ys)

  drop-append : (xs ys : List A) → drop (length xs) (xs ++ ys) ≡ ys
  drop-append [] ys = refl
  drop-append (x ∷ xs) ys = drop-append xs ys

  take_all : (xs : List A) → take (length xs) xs ≡ xs
  take_all [] = refl
  take_all (x ∷ xs) = ap (λ zs. x ∷ zs) (take_all xs)

starts_with-append : (ps xs : List ℕ) → starts_with (ps ++ xs) ps ≡ true
starts_with-append [] xs = refl
starts_with-append (p ∷ ps) xs = ground (arith, starts_with-append ps xs)

magic_tagged_data-append :
    (calls : Calls) (tag meta script : List ℕ)
    → op_return_data calls script ≡ some (tag ++ meta)
    → magic_tagged_data calls tag script ≡ some meta
unfolding magic_tagged_data
magic_tagged_data-append calls tag meta script h =
    ground (arith, starts_with-append tag meta, drop-append tag meta)

-- A transaction whose first output is worth more than the deposit and whose second output returns the
-- tag, the 32 bytes of a key and an address of the agreed length. If the bytes are a key, the
-- transaction is a deposit request with this key and address exactly if its first output pays to the
-- take-back address of the key; if they are no key, the call panics.
pub deposit_request_info-metadata :
    (calls : Calls) (from_slice : List ℕ → Option ℕ)
    (take_back_script : (key refund_delay : ℕ) → List ℕ) (params : PegOutGraphParams)
    (stake_index : ℕ) (tx : Transaction) (out second : TxOut) (key_bytes address : List ℕ)
    → first? tx.output ≡ some out
    → params.deposit_amount < out.value
    → get_elem? tx.output 1 ≡ some second
    → op_return_data calls second.script_pubkey ≡ some (params.tag ++ (key_bytes ++ address))
    → length key_bytes ≡ schnorr_public_key_size
    → deposit_request_info calls from_slice take_back_script (length address) params stake_index tx
      ≡ (elim (from_slice key_bytes) [
        | none ↦ panicked
        | some key ↦
            if bytes_eq (take_back_script key params.refund_delay) out.script_pubkey
            then done (
                some (record {
                  deposit_request_outpoint = record { txid = calls.compute_txid tx; vout = 0 };
                  stake_index = stake_index;
                  ee_address = address;
                  total_amount = out.value;
                  x_only_public_key = key;
                  original_script_pubkey = out.script_pubkey;
                }))
            else done none
      ])
unfolding deposit_request_info request_of_data validate
deposit_request_info-metadata calls from_slice take_back_script params stake_index tx out second
      key_bytes address at worth at' returned n =
    let meta = key_bytes ++ address in
    let front : take schnorr_public_key_size meta ≡ key_bytes =
      subst (λ k. take k meta ≡ key_bytes) n (take-append key_bytes address) in
    let back : drop schnorr_public_key_size meta ≡ address =
      subst (λ k. drop k meta ≡ address) n (drop-append key_bytes address) in
    ground (
      arith,
      magic_tagged_data-append calls params.tag meta second.script_pubkey returned,
      length-append key_bytes address,
      front,
      back,
      take_all address,
    )
