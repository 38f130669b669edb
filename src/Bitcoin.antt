-- ===== src/Bitcoin.antt =====
-- The data of the `bitcoin` crate that the bridge reads, by its public fields, and the functions of
-- that crate that the bridge calls, which are parameters. A txid, a block hash and a key is the
-- number that its bytes spell in order, so that the order of numbers is the order of the keys in a
-- `BTreeMap`.
use strata_bridge.Prelude.{ℕ, Bool, Option, List}

pub record OutPoint : Type 0 where
  pub txid : ℕ
  pub vout : ℕ

pub record TxIn : Type 0 where
  pub previous_output : OutPoint
  pub script_sig : List ℕ
  pub sequence : ℕ
  pub witness : List (List ℕ)

pub record TxOut : Type 0 where
  pub value : ℕ
  pub script_pubkey : List ℕ

pub record Transaction : Type 0 where
  pub version : ℕ
  pub lock_time : ℕ
  pub input : List TxIn
  pub output : List TxOut

pub record Header : Type 0 where
  pub version : ℕ
  pub prev_blockhash : ℕ
  pub merkle_root : ℕ
  pub time : ℕ
  pub bits : ℕ
  pub nonce : ℕ

pub record Block : Type 0 where
  pub header : Header
  pub txdata : List Transaction

-- What the bridge calls on these data. `tx_eq` is the derived `PartialEq` of a transaction;
-- `bip34_block_height` is `none` where the crate returns an error.
pub record Hashing : Type 0 where
  pub compute_txid : Transaction → ℕ
  pub block_hash : Block → ℕ
  pub bip34_block_height : Block → Option ℕ
  pub tx_eq : Transaction → Transaction → Bool
