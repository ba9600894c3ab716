-- ===== src/Database/Store.antt =====
-- Blocks and unspent outputs: `apply_block` and what it calls.
use mermai_blockchain.Base.{
  ℕ, ◌+◌, ◌-◌, Bool, true, false, ◌&&◌, ◌||◌, not, Option, none, some, List, [], ◌∷◌, ltb, take,
  is_empty, if◌then◌else◌,
}
use mermai_blockchain.Base.Words.{u64_max}
use mermai_blockchain.Base.Key.{Bytes, bytes_key, nat_key, ◌==◌, ◌!=◌}
use mermai_blockchain.Crypto.{Crypto, hex_encode}
use mermai_blockchain.Transaction.{
  TxInput, TxOutput, Transaction, transaction_hash, serialize_transaction,
}
use mermai_blockchain.Transaction.Verify.{verify_transaction}
use mermai_blockchain.Block.{Block, calculate_hash, serialize_block}
use mermai_blockchain.Database.{
  UnspentOutput, Statement, begin_immediate, commit, rollback, replace_block, replace_transaction,
  update_block_hash, insert_utxo, select_utxo, delete_utxo, delete_mempool, Column, Reply, failed,
  done, is_done, rows_of, c_string, text_at, integer_at,
}

-- `address_from_public_key`
unfoldable pub address_from_public_key : Crypto → Bytes → Bytes
unfolding hex_encode
address_from_public_key crypto public_key =
    if is_empty public_key
    then []
    else if not (crypto.parses_whole_key public_key)
    then []
    else b'm' ∷ b'r' ∷ b'm' ∷ b'1' ∷ hex_encode (take 20 (crypto.sha256 public_key))

-- `tx.id.empty() ? tx.get_hash() : tx.id`
unfoldable pub id_of : Crypto → Transaction → Bytes
id_of crypto tx = if is_empty tx.id then transaction_hash crypto tx else tx.id

-- `sqlite3_changes(db_connection) == 1`
unfoldable pub changed_one : Reply → Bool
changed_one (done changes) = changes == 1
changed_one _ = false

-- The loop over the outputs: none is the refusal of an overflow.
unfoldable pub outputs_total : ℕ → List TxOutput → Option ℕ
outputs_total total [] = some total
outputs_total total (o ∷ outputs) =
    if ltb (u64_max - total) o.amount then none else outputs_total (total + o.amount) outputs

-- The output that the first row describes.
unfoldable pub output_of_row : Bytes → ℕ → List (List Column) → Option UnspentOutput
output_of_row tx_id output_index [] = none
output_of_row tx_id output_index (row ∷ rest) = some (record {
  tx_id = tx_id;
  output_index = output_index;
  address = text_at 0 row;
  amount = integer_at 1 row;
})

module _ {Db : Type 0} (run : Statement → Db → Reply × Db) where
  -- A statement on the connection; without one each operation gives up, as when it fails.
  unfoldable pub execute : Statement → Option Db → Reply × Option Db
  execute statement none = (failed, none)
  execute statement (some db) = let r = run statement db in (r.0, some r.1)

  unfoldable pub save_unspent_output : UnspentOutput → Option Db → Bool × Option Db
  save_unspent_output o db =
      if is_empty o.tx_id || (is_empty o.address || o.amount == 0)
      then (false, db)
      else let r =
          execute (insert_utxo (c_string o.tx_id) o.output_index (c_string o.address) o.amount)
            db in
        (is_done r.0, r.1)

  unfoldable pub get_unspent_output : Bytes → ℕ → Option Db → Option UnspentOutput × Option Db
  get_unspent_output tx_id output_index db =
      let r = execute (select_utxo (c_string tx_id) output_index) db in
      (output_of_row tx_id output_index (rows_of r.0), r.1)

  unfoldable pub spend_unspent_output : Bytes → ℕ → Option Db → Bool × Option Db
  spend_unspent_output tx_id output_index db =
      let r = execute (delete_utxo (c_string tx_id) output_index) db in (changed_one r.0, r.1)

  -- The loop over the inputs of `validate_transaction_inputs`, with `inputs_total`; it reads an
  -- output as `get_unspent_output` does.
  unfoldable pub inputs_total : Crypto → ℕ → List TxInput → Option Db → Option ℕ × Option Db
  inputs_total crypto total [] db = (some total, db)
  inputs_total crypto total (i ∷ inputs) db =
      let r = get_unspent_output i.prev_tx_hash i.prev_output_idx db in
      elim r.0 [
        | none ↦ (none, r.1)
        | some o ↦
            if is_empty o.address
              || ((address_from_public_key crypto i.public_key != o.address)
                  || ltb (u64_max - total) o.amount)
            then (none, r.1)
            else inputs_total crypto (total + o.amount) inputs r.1
      ]

  unfoldable pub validate_transaction_inputs :
      Crypto → ℕ → Transaction → Option Db → Bool × Option Db
  validate_transaction_inputs crypto now tx none = (false, none)
  validate_transaction_inputs crypto now tx (some db) =
      if not (verify_transaction crypto now tx)
      then (false, some db)
      else elim (outputs_total tx.fee tx.outputs) [
        | none ↦ (false, some db)
        | some expected ↦
            let r = inputs_total crypto 0 tx.inputs (some db) in
            ((elim r.0 [ none ↦ false | some total ↦ total == expected ]), r.1)
      ]

  -- The loops of `apply_block` over a transaction's inputs and outputs.
  unfoldable pub spend_inputs : List TxInput → Option Db → Bool × Option Db
  spend_inputs [] db = (true, db)
  spend_inputs (i ∷ inputs) db =
      let r = spend_unspent_output i.prev_tx_hash i.prev_output_idx db in
      if r.0 then spend_inputs inputs r.1 else (false, r.1)

  unfoldable pub save_outputs : Bytes → ℕ → List TxOutput → Option Db → Bool × Option Db
  save_outputs tx_id index [] db = (true, db)
  save_outputs tx_id index (o ∷ outputs) db =
      let r =
        save_unspent_output
          (record { tx_id = tx_id; output_index = index; address = o.address; amount = o.amount })
          db in
      if r.0 then save_outputs tx_id (index + 1) outputs r.1 else (false, r.1)

  unfoldable pub remove_from_mempool : Bytes → Option Db → Bool × Option Db
  remove_from_mempool tx_id db =
      let r = execute (delete_mempool (c_string tx_id)) db in (is_done r.0, r.1)

  -- The inputs of a transaction of a block; one without inputs is not validated.
  unfoldable pub apply_inputs : Crypto → ℕ → Transaction → Option Db → Bool × Option Db
  apply_inputs crypto now tx db =
      if is_empty tx.inputs
      then (true, db)
      else let r = validate_transaction_inputs crypto now tx db in
        if r.0 then spend_inputs tx.inputs r.1 else (false, r.1)

  -- The loop of `apply_block`; what `remove_from_mempool` returns is not used.
  unfoldable pub apply_transactions : Crypto → ℕ → List Transaction → Option Db → Bool × Option Db
  apply_transactions crypto now [] db = (true, db)
  apply_transactions crypto now (tx ∷ txs) db =
      let spent = apply_inputs crypto now tx db in
      if spent.0
      then (let saved = save_outputs (id_of crypto tx) 0 tx.outputs spent.1 in
          if saved.0
          then apply_transactions crypto now txs (remove_from_mempool (id_of crypto tx) saved.1).1
          else (false, saved.1))
      else (false, spent.1)

  unfoldable pub save_transaction : Crypto → Transaction → Option Db → Bool × Option Db
  save_transaction crypto tx db =
      let r =
        execute
          (replace_transaction (c_string (id_of crypto tx)) (serialize_transaction tx) tx.timestamp)
          db in
      (is_done r.0, r.1)

  -- The loop of `save_block`, with `result`.
  unfoldable pub save_transactions :
      Crypto → Bytes → Bool → List Transaction → Option Db → Bool × Option Db
  save_transactions crypto hash_value result [] db = (result, db)
  save_transactions crypto hash_value result (tx ∷ txs) db =
      let saved = save_transaction crypto tx db in
      let updated =
        execute (update_block_hash (c_string hash_value) (c_string (id_of crypto tx))) saved.1 in
      save_transactions crypto hash_value (is_done updated.0 && (saved.0 && result)) txs updated.1

  unfoldable pub save_block : Crypto → Block → Option Db → Bool × Option Db
  save_block crypto block db =
      let hash_value = hex_encode (calculate_hash crypto block) in
      let r =
        execute
          (replace_block (c_string hash_value) block.height (c_string block.prev_block_hash)
            block.timestamp (serialize_block block))
          db in
      save_transactions crypto hash_value (is_done r.0) block.transactions r.1

  -- `apply_block`, after the statement that begins its transaction.
  unfoldable pub apply_changes : Crypto → ℕ → Block → Option Db → Bool × Option Db
  apply_changes crypto now block db =
      let applied = apply_transactions crypto now block.transactions db in
      if applied.0 then save_block crypto block applied.1 else applied

  unfoldable pub apply_block : Crypto → ℕ → Block → Option Db → Bool × Option Db
  apply_block crypto now block db =
      let begun = execute begin_immediate db in
      if is_done begun.0
      then (let changed = apply_changes crypto now block begun.1 in
          let ended = execute (if changed.0 then commit else rollback) changed.1 in
          (changed.0 && is_done ended.0, ended.1))
      else (false, begun.1)
