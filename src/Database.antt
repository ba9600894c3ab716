-- ===== src/Database.antt =====
-- `mermai_db`: include/mermai/mermai_db.hpp and src/db/mermai_db.cpp.
-- SQLite is a parameter: a function that runs one statement, which the source prepares, binds, steps
-- and finalizes, on the state behind the connection. A statement here stands for the text of SQL in
-- the source, with the values that are bound to it; an integer is bound and read as the unsigned
-- number that the source casts there and back.
pub mod Store
pub mod Ledger
pub mod Records
pub mod Validators
pub mod KeyValue
pub mod Sample
mod Tests
use mermai_blockchain.Base.{ℕ, zero, suc, Bool, true, false, List, [], ◌∷◌, if◌then◌else◌}
use mermai_blockchain.Base.Key.{Bytes, nat_key, ◌==◌}

pub record UnspentOutput : Type 0 where
  pub tx_id : Bytes
  pub output_index : ℕ
  pub address : Bytes
  pub amount : ℕ

pub record Account : Type 0 where
  pub address : Bytes
  pub balance : ℕ
  pub nonce : ℕ
  pub last_activity : ℕ

pub data Statement : Type 0 where
  begin_immediate commit rollback wal_checkpoint : Statement
  replace_block : Bytes → ℕ → Bytes → ℕ → Bytes → Statement
  select_block_by_hash : Bytes → Statement
  select_block_by_height : ℕ → Statement
  select_max_height : Statement
  replace_transaction : Bytes → Bytes → ℕ → Statement
  update_block_hash : Bytes → Bytes → Statement
  select_transaction : Bytes → Statement
  select_block_transactions : Bytes → Statement
  select_all_transactions : Statement
  insert_utxo : Bytes → ℕ → Bytes → ℕ → Statement
  select_utxo : Bytes → ℕ → Statement
  delete_utxo : Bytes → ℕ → Statement
  upsert_account : Bytes → ℕ → ℕ → ℕ → Statement
  select_account : Bytes → Statement
  update_account_balance : Bytes → ℕ → Statement
  increment_account_nonce : Bytes → Statement
  upsert_validator : Bytes → ℕ → ℕ → ℕ → ℕ → Bytes → Statement
  select_validator : Bytes → Statement
  select_all_validators : Statement
  update_validator_amount : Bytes → ℕ → Statement
  delete_validator : Bytes → Statement
  upsert_contract_storage : Bytes → Bytes → Bytes → Statement
  select_contract_storage : Bytes → Bytes → Statement
  select_contract_all_storage : Bytes → Statement
  upsert_contract : Bytes → Bytes → Statement
  select_contract : Bytes → Statement
  replace_mempool : Bytes → Bytes → ℕ → Statement
  select_mempool_transaction : Bytes → Statement
  select_mempool : ℕ → Statement
  delete_mempool : Bytes → Statement
  delete_all_mempool : Statement
  replace_state_root : ℕ → Bytes → Statement
  select_state_root : ℕ → Statement

pub data Column : Type 0 where
  text : Bytes → Column
  blob : Bytes → Column
  integer : ℕ → Column
  -- The bits of a double.
  real : ℕ → Column
  null : Column

-- What a statement comes to: an error code, SQLITE_DONE with the number of changed rows, or the
-- rows of a query, up to the first step that gives none.
pub data Reply : Type 0 where
  failed : Reply
  done : ℕ → Reply
  rows : List (List Column) → Reply

-- `sqlite3_step(statement) == SQLITE_DONE`
unfoldable pub is_done : Reply → Bool
is_done (done changes) = true
is_done _ = false

-- The rows of a query.
unfoldable pub rows_of : Reply → List (List Column)
rows_of (rows list) = list
rows_of _ = []

-- A text is bound up to its first zero byte: `value.c_str()` with the length -1.
unfoldable pub c_string : Bytes → Bytes
c_string [] = []
c_string (b ∷ bytes) = let rest = c_string bytes in if b == 0 then [] else b ∷ rest

-- A column of a row: `sqlite3_column_text`, `sqlite3_column_int64`, `sqlite3_column_double` and
-- `sqlite3_column_blob`. Each table has one type for each of its columns.
unfoldable pub text_at : ℕ → List Column → Bytes
text_at n [] = []
text_at zero (text value ∷ row) = value
text_at zero (_ ∷ row) = []
text_at (suc n) (column ∷ row) = text_at n row

unfoldable pub integer_at : ℕ → List Column → ℕ
integer_at n [] = 0
integer_at zero (integer value ∷ row) = value
integer_at zero (_ ∷ row) = 0
integer_at (suc n) (column ∷ row) = integer_at n row

unfoldable pub real_at : ℕ → List Column → ℕ
real_at n [] = 0
real_at zero (real bits ∷ row) = bits
real_at zero (_ ∷ row) = 0
real_at (suc n) (column ∷ row) = real_at n row

unfoldable pub blob_at : ℕ → List Column → Bytes
blob_at n [] = []
blob_at zero (blob value ∷ row) = value
blob_at zero (_ ∷ row) = []
blob_at (suc n) (column ∷ row) = blob_at n row
