-- ===== src/Database/Ledger/Ended.antt =====
-- `apply_block` after SQLite has ended its transaction: none is active to its end.
use mermai_blockchain.Base.{
  ℕ, ◌+◌, ◌-◌, Bool, ◌&&◌, ◌||◌, Option, none, some, List, [], ◌∷◌, is_empty, ltb, Bool-cases,
  Option-cases, inl, inr, refl,
}
use mermai_blockchain.Base.Words.{u64_max}
use mermai_blockchain.Base.Key.{Bytes, bytes_key, nat_key, ◌==◌, ◌!=◌}
use mermai_blockchain.Crypto.{Crypto}
use mermai_blockchain.Transaction.{TxInput, TxOutput, Transaction, serialize_transaction}
use mermai_blockchain.Transaction.Verify.{verify_transaction}
use mermai_blockchain.Database.{
  UnspentOutput, Statement, insert_utxo, select_utxo, delete_utxo, delete_mempool,
  replace_transaction, update_block_hash, Reply, is_done, c_string,
}
use mermai_blockchain.Database.Store.{
  address_from_public_key, id_of, outputs_total, execute, save_unspent_output, get_unspent_output,
  spend_unspent_output, inputs_total, validate_transaction_inputs, spend_inputs, save_outputs,
  remove_from_mempool, apply_inputs, apply_transactions, save_transaction, save_transactions,
}
use mermai_blockchain.Database.Ledger.{Ledger, IsSqlite}
use mermai_blockchain.Database.Ledger.Statements.{Ended, execute-Ended}

module _ {Db : Type 0} (run : Statement → Db → Reply × Db) (active : Db → Bool)
    (utxos stored : Db → Ledger) (law : IsSqlite run active utxos stored) where
  save_unspent_output-Ended :
      (o : UnspentOutput) (db : Option Db)
      → Ended run active utxos stored law db
      → Ended run active utxos stored law (save_unspent_output run o db).1
  unfolding save_unspent_output
  save_unspent_output-Ended o db d =
      let s = insert_utxo (c_string o.tx_id) o.output_index (c_string o.address) o.amount in
      elim (Bool-cases (is_empty o.tx_id || (is_empty o.address || o.amount == 0))) [
        | inl refused ↦ rw refused d
        | inr accepted ↦ rw accepted (execute-Ended run active utxos stored law s db refl d)
      ]

  get_unspent_output-Ended :
      (tx_id : Bytes) (index : ℕ) (db : Option Db)
      → Ended run active utxos stored law db
      → Ended run active utxos stored law (get_unspent_output run tx_id index db).1
  unfolding get_unspent_output
  get_unspent_output-Ended tx_id index db d =
      execute-Ended run active utxos stored law (select_utxo (c_string tx_id) index) db refl d

  spend_unspent_output-Ended :
      (tx_id : Bytes) (index : ℕ) (db : Option Db)
      → Ended run active utxos stored law db
      → Ended run active utxos stored law (spend_unspent_output run tx_id index db).1
  unfolding spend_unspent_output
  spend_unspent_output-Ended tx_id index db d =
      execute-Ended run active utxos stored law (delete_utxo (c_string tx_id) index) db refl d

  inputs_total-Ended :
      (crypto : Crypto) (total : ℕ) (inputs : List TxInput) (db : Option Db)
      → Ended run active utxos stored law db
      → Ended run active utxos stored law (inputs_total run crypto total inputs db).1
  unfolding inputs_total
  inputs_total-Ended crypto total [] db d = d
  inputs_total-Ended crypto total (i ∷ inputs) db d =
      let r = get_unspent_output run i.prev_tx_hash i.prev_output_idx db in
      let next = get_unspent_output-Ended i.prev_tx_hash i.prev_output_idx db d in
      elim (Option-cases r.0) [
        | inl missing ↦ rw (missing, inputs_total) next
        | inr (o, found) ↦
            (elim (Bool-cases (
              is_empty o.address
              || ((address_from_public_key crypto i.public_key != o.address)
                  || ltb (u64_max - total) o.amount))) [
                    | inl refused ↦ rw (found, refused, inputs_total) next
                    | inr accepted ↦
                        rw (found, accepted, inputs_total)
                          (inputs_total-Ended crypto (total + o.amount) inputs r.1 next)
                  ])
      ]

  validate_transaction_inputs-Ended :
      (crypto : Crypto) (now : ℕ) (tx : Transaction) (db : Option Db)
      → Ended run active utxos stored law db
      → Ended run active utxos stored law (validate_transaction_inputs run crypto now tx db).1
  unfolding validate_transaction_inputs
  validate_transaction_inputs-Ended crypto now tx none d = d
  validate_transaction_inputs-Ended crypto now tx (some db) d =
      elim (Bool-cases (verify_transaction crypto now tx)) [
        | inr invalid ↦ rw (invalid, validate_transaction_inputs) d
        | inl valid ↦ (elim (Option-cases (outputs_total tx.fee tx.outputs)) [
          | inl overflow ↦ rw (valid, overflow, validate_transaction_inputs) d
          | inr (expected, sum) ↦
              rw (valid, sum, validate_transaction_inputs)
                (inputs_total-Ended crypto 0 tx.inputs (some db) d)
        ])
      ]

  spend_inputs-Ended :
      (inputs : List TxInput) (db : Option Db)
      → Ended run active utxos stored law db
      → Ended run active utxos stored law (spend_inputs run inputs db).1
  unfolding spend_inputs
  spend_inputs-Ended [] db d = d
  spend_inputs-Ended (i ∷ inputs) db d =
      let r = spend_unspent_output run i.prev_tx_hash i.prev_output_idx db in
      let next = spend_unspent_output-Ended i.prev_tx_hash i.prev_output_idx db d in
      elim (Bool-cases r.0) [
        | inr refused ↦ rw refused next
        | inl accepted ↦ rw accepted (spend_inputs-Ended inputs r.1 next)
      ]

  save_outputs-Ended :
      (tx_id : Bytes) (index : ℕ) (outputs : List TxOutput) (db : Option Db)
      → Ended run active utxos stored law db
      → Ended run active utxos stored law (save_outputs run tx_id index outputs db).1
  unfolding save_outputs
  save_outputs-Ended tx_id index [] db d = d
  save_outputs-Ended tx_id index (o ∷ outputs) db d =
      let output : UnspentOutput = record {
        tx_id = tx_id;
        output_index = index;
        address = o.address;
        amount = o.amount;
      } in
      let r = save_unspent_output run output db in
      let next = save_unspent_output-Ended output db d in
      elim (Bool-cases r.0) [
        | inr refused ↦ rw refused next
        | inl accepted ↦ rw accepted (save_outputs-Ended tx_id (index + 1) outputs r.1 next)
      ]

  apply_inputs-Ended :
      (crypto : Crypto) (now : ℕ) (tx : Transaction) (db : Option Db)
      → Ended run active utxos stored law db
      → Ended run active utxos stored law (apply_inputs run crypto now tx db).1
  unfolding apply_inputs
  apply_inputs-Ended crypto now tx db d =
      let r = validate_transaction_inputs run crypto now tx db in
      let next = validate_transaction_inputs-Ended crypto now tx db d in
      elim (Bool-cases (is_empty tx.inputs)) [
        | inl free ↦ rw (free, apply_inputs) d
        | inr paying ↦ (elim (Bool-cases r.0) [
          | inr refused ↦ rw (paying, refused, apply_inputs) next
          | inl accepted ↦
              rw (paying, accepted, apply_inputs) (spend_inputs-Ended tx.inputs r.1 next)
        ])
      ]

  pub apply_transactions-Ended :
      (crypto : Crypto) (now : ℕ) (txs : List Transaction) (db : Option Db)
      → Ended run active utxos stored law db
      → Ended run active utxos stored law (apply_transactions run crypto now txs db).1
  unfolding apply_transactions remove_from_mempool
  apply_transactions-Ended crypto now [] db d = d
  apply_transactions-Ended crypto now (tx ∷ txs) db d =
      let id = id_of crypto tx in
      let spent = apply_inputs run crypto now tx db in
      let saved = save_outputs run id 0 tx.outputs spent.1 in
      let forget = delete_mempool (c_string id) in
      let paid_still = apply_inputs-Ended crypto now tx db d in
      let saved_still = save_outputs-Ended id 0 tx.outputs spent.1 paid_still in
      elim (Bool-cases spent.0) [
        | inr refused ↦ rw refused paid_still
        | inl paid ↦ (elim (Bool-cases saved.0) [
          | inr refused ↦ rw (paid, refused) saved_still
          | inl made ↦
              rw (paid, made)
                (apply_transactions-Ended crypto now txs (execute run forget saved.1).1
                  (execute-Ended run active utxos stored law forget saved.1 refl saved_still))
        ])
      ]

  pub save_transactions-Ended :
      (crypto : Crypto) (hash : Bytes) (result : Bool) (txs : List Transaction) (db : Option Db)
      → Ended run active utxos stored law db
      → Ended run active utxos stored law (save_transactions run crypto hash result txs db).1
  unfolding save_transactions save_transaction
  save_transactions-Ended crypto hash result [] db d = d
  save_transactions-Ended crypto hash result (tx ∷ txs) db d =
      let first =
        replace_transaction (c_string (id_of crypto tx)) (serialize_transaction tx) tx.timestamp in
      let second = update_block_hash (c_string hash) (c_string (id_of crypto tx)) in
      let saved = execute run first db in
      let updated = execute run second saved.1 in
      save_transactions-Ended crypto hash (is_done updated.0 && (is_done saved.0 && result)) txs
        updated.1
        (execute-Ended run active utxos stored law second saved.1 refl
          (execute-Ended run active utxos stored law first db refl d))
