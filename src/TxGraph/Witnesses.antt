-- ===== src/TxGraph/Witnesses.antt =====
-- The witnesses of the assert-data transactions (parse_witnesses of
-- crates/tx-graph/src/transactions/assert_data.rs).
use strata_bridge.Prelude.{
  ℕ, ◌-◌, Bool, Option, none, List, [], ◌∷◌, ◌++◌, map, length, take, drop, if◌then◌else◌, ◌==◌,
  ltb, Run, done, panicked, ◌>>=◌,
}
use strata_bridge.Bitcoin.{TxIn, Transaction}
use strata_bridge.PogMusig.{num_assert_data_tx}

-- What `script!` pushes.
pub data Pushed : Type 0 where
  number : ℕ → Pushed
  bytes : List ℕ → Pushed

-- `if w.len() == 1 { { w[0] } } else { { w.to_vec() } }`
abbrev pub pushed : List ℕ → Pushed
pushed (b ∷ []) = number b
pushed w = bytes w

-- The elements of a witness but the last two. On fewer than two, `len() - 2` panics where overflow
-- is checked; elsewhere it wraps, and everything is taken.
unfoldable pub witness_script : (debug : Bool) → List (List ℕ) → Run (List Pushed)
witness_script debug witness =
    if ltb (length witness) 2
    then if debug then panicked else done (map pushed witness)
    else done (map pushed (take (length witness - 2) witness))

unfoldable pub input_scripts : (debug : Bool) → List TxIn → Run (List (List Pushed))
unfolding witness_script
input_scripts debug [] = done []
input_scripts debug (txin ∷ ins) = do
  script ← witness_script debug txin.witness
  rest ← input_scripts debug ins
  done (script ∷ rest)

-- `flat_map` over the transactions.
unfoldable pub witness_scripts : (debug : Bool) → List Transaction → Run (List (List Pushed))
unfolding input_scripts
witness_scripts debug [] = done []
witness_scripts debug (tx ∷ txs) = do
  scripts ← input_scripts debug tx.input
  rest ← witness_scripts debug txs
  done (scripts ++ rest)

-- How `parse_assertion_witnesses` reads the four batches of scripts; `none` is an error.
abbrev pub AssertionParser : Type 0
AssertionParser = (batch256_1 batch256_2 hash_batch_1 hash_batch_2 : List (List Pushed)) → Option ℕ

unfoldable pub parse_witnesses :
    (debug : Bool) → AssertionParser → List Transaction → Run (Option ℕ)
unfolding witness_scripts
parse_witnesses debug parse txs = do
  witnesses ← witness_scripts debug txs
  if length witnesses == num_assert_data_tx
      then done (
          parse (take 3 witnesses) (take 0 (drop 3 witnesses)) (take 33 (drop 3 witnesses))
            (drop (length witnesses - 3) witnesses))
      else done none
