-- ===== src/Database/Ledger/Refinement/Saving.antt =====
-- The statements of save_block, which leave the unspent outputs alone.
use mermai_blockchain.Base.{◌≡◌, refl, ◌∙◌, Bool, true, ◌&&◌, Option, List, [], ◌∷◌, arith}
use mermai_blockchain.Base.Key.{Bytes, bytes_key, nat_key, pair_key}
use mermai_blockchain.Crypto.{Crypto}
use mermai_blockchain.Transaction.{Transaction, serialize_transaction}
use mermai_blockchain.Database.{
  Statement, replace_transaction, update_block_hash, Reply, is_done, c_string,
}
use mermai_blockchain.Database.Store.{id_of, execute, save_transaction, save_transactions}
use mermai_blockchain.Database.Ledger.{Ledger, IsSqlite}
use mermai_blockchain.Database.Ledger.Statements.{
  InBlock, Kept, table, reads-Kept, execute-InBlock, execute-table, is_done-succeeds,
}

module _ {Db : Type 0} (run : Statement → Db → Reply × Db) (active : Db → Bool)
    (utxos stored : Db → Ledger) (law : IsSqlite run active utxos stored) where
  pub save_transactions-Kept :
      (base : Ledger) (crypto : Crypto) (hash : Bytes) (result : Bool) (txs : List Transaction)
      (db : Option Db)
      → Kept run active utxos stored law base db
      → Kept run active utxos stored law base (save_transactions run crypto hash result txs db).1
  unfolding save_transactions save_transaction
  save_transactions-Kept base crypto hash result [] db k = k
  save_transactions-Kept base crypto hash result (tx ∷ txs) db k =
      let first =
        replace_transaction (c_string (id_of crypto tx)) (serialize_transaction tx) tx.timestamp in
      let second = update_block_hash (c_string hash) (c_string (id_of crypto tx)) in
      let saved = execute run first db in
      let updated = execute run second saved.1 in
      save_transactions-Kept base crypto hash (is_done updated.0 && (is_done saved.0 && result)) txs
        updated.1
        (reads-Kept run active utxos stored law base second saved.1 refl refl
          (reads-Kept run active utxos stored law base first db refl refl k))

  pub save_transactions-result :
      (crypto : Crypto) (hash : Bytes) (result : Bool) (txs : List Transaction) (db : Option Db)
      → (save_transactions run crypto hash result txs db).0 ≡ true
      → result ≡ true
  unfolding save_transactions save_transaction
  save_transactions-result crypto hash result [] db e = e
  save_transactions-result crypto hash result (tx ∷ txs) db e =
      let first =
        replace_transaction (c_string (id_of crypto tx)) (serialize_transaction tx) tx.timestamp in
      let second = update_block_hash (c_string hash) (c_string (id_of crypto tx)) in
      let saved = execute run first db in
      let updated = execute run second saved.1 in
      let all =
        save_transactions-result crypto hash (is_done updated.0 && (is_done saved.0 && result)) txs
          updated.1 e in
      ground (arith, all)

  pub save_transactions-InBlock :
      (base : Ledger) (crypto : Crypto) (hash : Bytes) (result : Bool) (txs : List Transaction)
      (db : Option Db)
      → InBlock run active utxos stored law base db
      → (save_transactions run crypto hash result txs db).0 ≡ true
      → InBlock run active utxos stored law base (save_transactions run crypto hash result txs db).1
        × (table run active utxos stored law (save_transactions run crypto hash result txs db).1
            ≡ table run active utxos stored law db)
  unfolding save_transactions save_transaction
  save_transactions-InBlock base crypto hash result [] db b e = (b, refl)
  save_transactions-InBlock base crypto hash result (tx ∷ txs) db b e =
      let first =
        replace_transaction (c_string (id_of crypto tx)) (serialize_transaction tx) tx.timestamp in
      let second = update_block_hash (c_string hash) (c_string (id_of crypto tx)) in
      let saved = execute run first db in
      let updated = execute run second saved.1 in
      let all : (is_done updated.0 && (is_done saved.0 && result)) ≡ true =
        save_transactions-result crypto hash (is_done updated.0 && (is_done saved.0 && result)) txs
          updated.1 e in
      let updated_ok =
        is_done-succeeds run active utxos stored law updated.0 (ground (arith, all)) in
      let saved_ok = is_done-succeeds run active utxos stored law saved.0 (ground (arith, all)) in
      let b1 = execute-InBlock run active utxos stored law base first db refl b saved_ok in
      let b2 = execute-InBlock run active utxos stored law base second saved.1 refl b1 updated_ok in
      let (b', same) =
        save_transactions-InBlock base crypto hash
          (is_done updated.0 && (is_done saved.0 && result)) txs updated.1 b2 e in
      let later_same =
        execute-table run active utxos stored law base second saved.1 refl refl b1 b2 in
      let first_same = execute-table run active utxos stored law base first db refl refl b b1 in
      (b', same ∙ (later_same ∙ first_same))
