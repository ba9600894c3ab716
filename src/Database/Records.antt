-- ===== src/Database/Records.antt =====
-- The other tables: blocks and transactions that are read back, accounts, validators, contracts, the
-- pool, the state roots.
use mermai_blockchain.Base.{
  ℕ, zero, suc, Bool, false, ◌&&◌, ◌||◌, not, Option, none, some, List, [], ◌∷◌, is_empty,
  if◌then◌else◌,
}
use mermai_blockchain.Base.Key.{Bytes, bytes_key, nat_key, ◌==◌}
use mermai_blockchain.Base.Map.{Map, insert}
use mermai_blockchain.Crypto.{Crypto}
use mermai_blockchain.Wire.{ok, err}
use mermai_blockchain.Transaction.{
  TxInput, TxOutput, Transaction, serialize_transaction, deserialize_transaction,
}
use mermai_blockchain.Block.{Block, deserialize_block}
use mermai_blockchain.Database.{
  Account, Statement, wal_checkpoint, select_block_by_hash, select_block_by_height,
  select_max_height, select_transaction, select_block_transactions, select_all_transactions,
  upsert_account, select_account, update_account_balance, increment_account_nonce,
  update_validator_amount, delete_validator, upsert_contract_storage, select_contract_storage,
  select_contract_all_storage, upsert_contract, select_contract, replace_mempool,
  select_mempool_transaction, select_mempool, delete_all_mempool, replace_state_root,
  select_state_root, Column, text, Reply, is_done, rows_of, c_string, text_at, integer_at, blob_at,
}
use mermai_blockchain.Database.Store.{execute, id_of, address_from_public_key}

-- The first row of a query, as a block: none for no row, for an empty blob, and for one that
-- `deserialize` refuses.
unfoldable pub block_of_rows : List (List Column) → Option Block
block_of_rows [] = none
block_of_rows (row ∷ rest) =
    if is_empty (blob_at 0 row)
    then none
    else elim (deserialize_block (blob_at 0 row)) [ ok block ↦ some block | err reason ↦ none ]

-- The same as a transaction.
unfoldable pub transaction_of_row : List Column → Option Transaction
transaction_of_row row =
    if is_empty (blob_at 0 row)
    then none
    else elim (deserialize_transaction (blob_at 0 row)) [ ok tx ↦ some tx | err reason ↦ none ]

-- `mermai_transaction()`
unfoldable pub empty_transaction : Transaction
empty_transaction = record { id = []; inputs = []; outputs = []; fee = 0; timestamp = 0 }

unfoldable pub first_transaction : List (List Column) → Transaction
first_transaction [] = empty_transaction
first_transaction (row ∷ rest) = elim (transaction_of_row row) [
  | none ↦ empty_transaction
  | some tx ↦ tx
]

-- The loops that read a list of transactions pass over a row that holds none.
unfoldable pub transactions_of_rows : List (List Column) → List Transaction
transactions_of_rows [] = []
transactions_of_rows (row ∷ rest) = elim (transaction_of_row row) [
  | none ↦ transactions_of_rows rest
  | some tx ↦ tx ∷ transactions_of_rows rest
]

-- `belongs_to_account`
unfoldable pub pays_to : Bytes → List TxOutput → Bool
pays_to address [] = false
pays_to address (o ∷ outputs) = o.address == address || pays_to address outputs

unfoldable pub is_spent_by : Crypto → Bytes → List TxInput → Bool
is_spent_by crypto address [] = false
is_spent_by crypto address (i ∷ inputs) =
    (not (is_empty i.public_key) && (address_from_public_key crypto i.public_key == address))
    || is_spent_by crypto address inputs

-- The loop of `get_account_transactions`, with the number of places left.
unfoldable pub account_transactions_of_rows :
    Crypto → Bytes → ℕ → List (List Column) → List Transaction
account_transactions_of_rows crypto address limit [] = []
account_transactions_of_rows crypto address zero (row ∷ rest) = []
account_transactions_of_rows crypto address (suc limit) (row ∷ rest) =
    let shorter = account_transactions_of_rows crypto address limit rest in
    let same = account_transactions_of_rows crypto address (suc limit) rest in
    elim (transaction_of_row row) [
      | none ↦ same
      | some tx ↦
          if pays_to address tx.outputs || is_spent_by crypto address tx.inputs
          then tx ∷ shorter
          else same
    ]

unfoldable pub account_of_rows : Bytes → List (List Column) → Account
account_of_rows address [] = record { address = address; balance = 0; nonce = 0; last_activity = 0 }
account_of_rows address (row ∷ rest) = record {
  address = address;
  balance = integer_at 0 row;
  nonce = integer_at 1 row;
  last_activity = integer_at 2 row;
}

-- The first column of the first row.
unfoldable pub first_blob : List (List Column) → Bytes
first_blob [] = []
first_blob (row ∷ rest) = blob_at 0 row

unfoldable pub first_text : List (List Column) → Bytes
first_text [] = []
first_text (row ∷ rest) = text_at 0 row

unfoldable pub first_integer : List (List Column) → ℕ
first_integer [] = 0
first_integer (row ∷ rest) = integer_at 0 row

-- The loop of `get_contract_all_storage`: a row without a key is passed over.
unfoldable pub storage_of_rows : List (List Column) → Map Bytes Bytes → Map Bytes Bytes
storage_of_rows [] result = result
storage_of_rows ((text key ∷ value) ∷ rest) result =
    storage_of_rows rest (insert key (blob_at 0 value) result)
storage_of_rows (row ∷ rest) result = storage_of_rows rest result

module _ {Db : Type 0} (run : Statement → Db → Reply × Db) where
  -- A statement that returns no rows: whether it was done.
  unfoldable pub perform : Statement → Option Db → Bool × Option Db
  perform statement db = let r = execute run statement db in (is_done r.0, r.1)

  unfoldable pub get_block_by_hash : Bytes → Option Db → Option Block × Option Db
  get_block_by_hash hash db =
      let r = execute run (select_block_by_hash (c_string hash)) db in
      (block_of_rows (rows_of r.0), r.1)

  unfoldable pub get_block_by_height : ℕ → Option Db → Option Block × Option Db
  get_block_by_height height db =
      let r = execute run (select_block_by_height height) db in (block_of_rows (rows_of r.0), r.1)

  unfoldable pub get_latest_block_height : Option Db → ℕ × Option Db
  get_latest_block_height db =
      let r = execute run select_max_height db in (first_integer (rows_of r.0), r.1)

  -- The transactions first, then the pool.
  unfoldable pub get_transaction : Bytes → Option Db → Transaction × Option Db
  get_transaction tx_id db =
      let stored = execute run (select_transaction (c_string tx_id)) db in
      let pooled = execute run (select_mempool_transaction (c_string tx_id)) stored.1 in
      if is_empty (first_transaction (rows_of stored.0)).id
      then (first_transaction (rows_of pooled.0), pooled.1)
      else (first_transaction (rows_of stored.0), stored.1)

  unfoldable pub get_transactions_in_block : Bytes → Option Db → List Transaction × Option Db
  get_transactions_in_block block_hash db =
      let r = execute run (select_block_transactions (c_string block_hash)) db in
      (transactions_of_rows (rows_of r.0), r.1)

  unfoldable pub save_account : Account → Option Db → Bool × Option Db
  save_account a db =
      perform (upsert_account (c_string a.address) a.balance a.nonce a.last_activity) db

  unfoldable pub get_account : Bytes → Option Db → Account × Option Db
  get_account address db =
      let r = execute run (select_account (c_string address)) db in
      (account_of_rows address (rows_of r.0), r.1)

  unfoldable pub update_balance : Bytes → ℕ → Option Db → Bool × Option Db
  update_balance address new_balance db =
      perform (update_account_balance (c_string address) new_balance) db

  unfoldable pub increment_nonce : Bytes → Option Db → Bool × Option Db
  increment_nonce address db = perform (increment_account_nonce (c_string address)) db

  unfoldable pub update_validator_stake : Bytes → ℕ → Option Db → Bool × Option Db
  update_validator_stake address new_stake db =
      perform (update_validator_amount (c_string address) new_stake) db

  unfoldable pub remove_validator : Bytes → Option Db → Bool × Option Db
  remove_validator address db = perform (delete_validator (c_string address)) db

  unfoldable pub save_contract_storage : Bytes → Bytes → Bytes → Option Db → Bool × Option Db
  save_contract_storage contract_address key value db =
      perform (upsert_contract_storage (c_string contract_address) (c_string key) value) db

  unfoldable pub get_contract_storage : Bytes → Bytes → Option Db → Bytes × Option Db
  get_contract_storage contract_address key db =
      let r = execute run (select_contract_storage (c_string contract_address) (c_string key)) db in
      (first_blob (rows_of r.0), r.1)

  unfoldable pub get_contract_all_storage : Bytes → Option Db → Map Bytes Bytes × Option Db
  get_contract_all_storage contract_address db =
      let r = execute run (select_contract_all_storage (c_string contract_address)) db in
      (storage_of_rows (rows_of r.0) [], r.1)

  unfoldable pub save_contract_code : Bytes → Bytes → Option Db → Bool × Option Db
  save_contract_code contract_address code db =
      if is_empty contract_address || is_empty code
      then (false, db)
      else perform (upsert_contract (c_string contract_address) code) db

  unfoldable pub get_contract_code : Bytes → Option Db → Bytes × Option Db
  get_contract_code contract_address db =
      let r = execute run (select_contract (c_string contract_address)) db in
      (first_blob (rows_of r.0), r.1)

  unfoldable pub add_to_mempool : Crypto → Transaction → Option Db → Bool × Option Db
  add_to_mempool crypto tx db =
      perform (replace_mempool (c_string (id_of crypto tx)) (serialize_transaction tx) tx.timestamp)
        db

  unfoldable pub get_mempool : ℕ → Option Db → List Transaction × Option Db
  get_mempool max_count db =
      let r = execute run (select_mempool max_count) db in (transactions_of_rows (rows_of r.0), r.1)

  unfoldable pub clear_mempool : Option Db → Option Db
  clear_mempool db = (execute run delete_all_mempool db).1

  unfoldable pub get_account_transactions :
      Crypto → Bytes → ℕ → Option Db → List Transaction × Option Db
  get_account_transactions crypto address limit db =
      let r = execute run select_all_transactions db in
      (account_transactions_of_rows crypto address limit (rows_of r.0), r.1)

  unfoldable pub save_state_root : ℕ → Bytes → Option Db → Bool × Option Db
  save_state_root block_height state_root db =
      perform (replace_state_root block_height (c_string state_root)) db

  unfoldable pub get_state_root : ℕ → Option Db → Bytes × Option Db
  get_state_root block_height db =
      let r = execute run (select_state_root block_height) db in (first_text (rows_of r.0), r.1)

  unfoldable pub sync : Option Db → Bool × Option Db
  sync db = perform wal_checkpoint db
