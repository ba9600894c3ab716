-- ===== src/Database/Ledger.antt =====
-- What `apply_block` is to do to the unspent outputs: an abstract ledger, and what SQLite promises.
pub mod Conservation
pub mod Statements
pub mod Ended
pub mod Refinement
use mermai_blockchain.Base.{
  ℕ, zero, suc, ◌+◌, ◌≡◌, ◌≤◌, Bool, true, false, Option, none, some, List, [], ◌∷◌, leb, is_empty,
  if◌then◌else◌,
}
use mermai_blockchain.Base.Words.{u64_max}
use mermai_blockchain.Base.Key.{Bytes, bytes_key, nat_key, pair_key, ◌==◌}
use mermai_blockchain.Base.Map.{Map, find, insert, erase, contains}
use mermai_blockchain.Crypto.{Crypto}
use mermai_blockchain.Transaction.{TxInput, TxOutput, Transaction}
use mermai_blockchain.Transaction.Verify.{Outpoint, verify_transaction}
use mermai_blockchain.Database.{
  Statement, begin_immediate, commit, rollback, insert_utxo, select_utxo, delete_utxo,
  delete_mempool, Reply, failed, done, rows, Column, is_done, rows_of, c_string, text_at,
  integer_at,
}
use mermai_blockchain.Database.Store.{address_from_public_key, id_of}

-- An owner's address and an amount, by the output they stand in.
abbrev pub Ledger : Type 0
Ledger = Map Outpoint (Bytes × ℕ)

abbrev pub spent_by : TxInput → Outpoint
spent_by i = (c_string i.prev_tx_hash, i.prev_output_idx)

-- The sum of what the inputs name, each owned by the key that the input gives.
unfoldable pub owned_value : Crypto → Ledger → List TxInput → Option ℕ
owned_value crypto ledger [] = some 0
owned_value crypto ledger (i ∷ inputs) = elim (find (spent_by i) ledger) [
  | none ↦ none
  | some output ↦
      if address_from_public_key crypto i.public_key == output.0
      then (elim (owned_value crypto ledger inputs) [
        | none ↦ none
        | some total ↦ some (output.1 + total)
      ])
      else none
]

unfoldable pub spend_all : List TxInput → Ledger → Option Ledger
spend_all [] ledger = some ledger
spend_all (i ∷ inputs) ledger = elim (find (spent_by i) ledger) [
  | none ↦ none
  | some output ↦ spend_all inputs (erase (spent_by i) ledger)
]

unfoldable pub create_all : Bytes → ℕ → List TxOutput → Ledger → Option Ledger
create_all tx_id index [] ledger = some ledger
create_all tx_id index (o ∷ outputs) ledger = elim (find (tx_id, index) ledger) [
  | none ↦
      create_all tx_id (index + 1) outputs
        (insert (tx_id, index) (c_string o.address, o.amount) ledger)
  | some output ↦ none
]

unfoldable pub value_of : List TxOutput → ℕ
value_of [] = 0
value_of (o ∷ outputs) = o.amount + value_of outputs

-- The inputs of a transaction pay for its outputs and its fee to the unit.
abbrev pub is_covered : Crypto → Ledger → Transaction → Bool
is_covered crypto ledger tx = elim (owned_value crypto ledger tx.inputs) [
  | none ↦ false
  | some total ↦ total == tx.fee + value_of tx.outputs
]

unfoldable pub settle : Crypto → ℕ → Transaction → Ledger → Option Ledger
settle crypto now tx ledger =
    if is_empty tx.inputs
    then some ledger
    else if verify_transaction crypto now tx
    then if is_covered crypto ledger tx then spend_all tx.inputs ledger else none
    else none

-- The ledger after the transactions of a block, if each of them can be settled in its turn.
unfoldable pub settle_all : Crypto → ℕ → List Transaction → Ledger → Option Ledger
settle_all crypto now [] ledger = some ledger
settle_all crypto now (tx ∷ txs) ledger = elim (settle crypto now tx ledger) [
  | none ↦ none
  | some spent ↦ (elim (create_all (c_string (id_of crypto tx)) 0 tx.outputs spent) [
    | none ↦ none
    | some next ↦ settle_all crypto now txs next
  ])
]

-- A statement within a transaction.
abbrev pub is_inner : Statement → Bool
is_inner begin_immediate = false
is_inner commit = false
is_inner rollback = false
is_inner _ = true

-- A statement that writes the table of unspent outputs.
abbrev pub writes_utxos : Statement → Bool
writes_utxos (insert_utxo tx_id index address amount) = true
writes_utxos (delete_utxo tx_id index) = true
writes_utxos _ = false

-- A statement that returns a row, no row, or what it changed.
abbrev pub succeeds : Reply → Bool
succeeds failed = false
succeeds _ = true

-- What SQLite documents: `utxos` are the rows that a statement on the connection sees, `stored` those
-- that are committed, and `active` says that a transaction has begun. A statement that fails may end
-- the transaction, as the errors do on which SQLite rolls a transaction back by itself; then the rows
-- that are seen may change too.
pub record IsSqlite {Db : Type 0} (run : Statement → Db → Reply × Db) (active : Db → Bool)
    (utxos stored : Db → Ledger) : Type 0 where
  pub begins :
      (db : Db)
      → is_done (run begin_immediate db).0 ≡ true
      → (active (run begin_immediate db).1 ≡ true) × (utxos (run begin_immediate db).1 ≡ stored db)
  pub begin_keeps : (db : Db) → stored (run begin_immediate db).1 ≡ stored db
  pub inner :
      (s : Statement) (db : Db)
      → is_inner s ≡ true
      → active db ≡ true
      → (stored (run s db).1 ≡ stored db)
        × (succeeds (run s db).0 ≡ true → active (run s db).1 ≡ true)
  pub others :
      (s : Statement) (db : Db)
      → is_inner s ≡ true
      → writes_utxos s ≡ false
      → (stored (run s db).1 ≡ stored db)
        × (active db ≡ true → active (run s db).1 ≡ true → utxos (run s db).1 ≡ utxos db)
  -- Without a transaction a statement leaves none.
  pub ended :
      (s : Statement) (db : Db)
      → is_inner s ≡ true
      → active db ≡ false
      → active (run s db).1 ≡ false
  pub nothing_to_commit : (db : Db) → active db ≡ false → is_done (run commit db).0 ≡ false
  -- The primary key of the table is the pair of the transaction and the index.
  pub inserts :
      (tx_id : Bytes) (index : ℕ) (address : Bytes) (amount : ℕ) (db : Db)
      → is_done (run (insert_utxo tx_id index address amount) db).0 ≡ true
      → (find (tx_id, index) (utxos db) ≡ none)
        × (utxos (run (insert_utxo tx_id index address amount) db).1
            ≡ insert (tx_id, index) (address, amount) (utxos db))
  pub selects :
      (tx_id : Bytes) (index : ℕ) (db : Db) (row : List Column) (rest : List (List Column))
      → rows_of (run (select_utxo tx_id index) db).0 ≡ row ∷ rest
      → find (tx_id, index) (utxos db) ≡ some (text_at 0 row, integer_at 1 row)
  pub deletes :
      (tx_id : Bytes) (index changes : ℕ) (db : Db)
      → (run (delete_utxo tx_id index) db).0 ≡ done changes
      → (changes ≡ (if contains (tx_id, index) (utxos db) then 1 else 0))
        × (utxos (run (delete_utxo tx_id index) db).1 ≡ erase (tx_id, index) (utxos db))
  pub commits : (db : Db) → is_done (run commit db).0 ≡ true → stored (run commit db).1 ≡ utxos db
  pub commit_fails :
      (db : Db) → is_done (run commit db).0 ≡ false → stored (run commit db).1 ≡ stored db
  pub rolls_back : (db : Db) → stored (run rollback db).1 ≡ stored db

-- `apply_block` goes on after a DELETE on the mempool that fails. This says that such a failure is
-- not one on which SQLite ends the transaction.
abbrev pub EndsNoTransaction : {Db : Type 0} → (Statement → Db → Reply × Db) → (Db → Bool) → Type 0
EndsNoTransaction run active =
    (tx_id : Bytes) (db : _)
    → active db ≡ true
    → succeeds (run (delete_mempool tx_id) db).0 ≡ false
    → active (run (delete_mempool tx_id) db).1 ≡ true
