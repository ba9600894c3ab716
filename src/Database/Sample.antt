-- ===== src/Database/Sample.antt =====
-- A small SQLite for tests: the table of unspent outputs as it is committed and as the transaction
-- sees it. It keeps what the library documents.
use mermai_blockchain.Base.{◌≡◌, refl, Bool, true, false, none, some, [], ◌∷◌, arith, if◌then◌else◌}
use mermai_blockchain.Base.Key.{bytes_key, nat_key, pair_key}
use mermai_blockchain.Base.Map.{find, insert, erase, contains}
use mermai_blockchain.Database.{
  Statement, begin_immediate, commit, rollback, wal_checkpoint, replace_block, select_block_by_hash,
  select_block_by_height, select_max_height, replace_transaction, update_block_hash,
  select_transaction, select_block_transactions, select_all_transactions, insert_utxo, select_utxo,
  delete_utxo, upsert_account, select_account, update_account_balance, increment_account_nonce,
  upsert_validator, select_validator, select_all_validators, update_validator_amount,
  delete_validator, upsert_contract_storage, select_contract_storage, select_contract_all_storage,
  upsert_contract, select_contract, replace_mempool, select_mempool_transaction, select_mempool,
  delete_mempool, delete_all_mempool, replace_state_root, select_state_root, text, integer, Reply,
  failed, done, rows, is_done, rows_of, text_at, integer_at,
}
use mermai_blockchain.Database.Ledger.{
  Ledger, is_inner, writes_utxos, succeeds, IsSqlite, EndsNoTransaction,
}

pub record SampleDb : Type 0 where
  pub active : Bool
  pub stored : Ledger
  pub working : Ledger

unfoldable pub seen : SampleDb → Ledger
seen db = if db.active then db.working else db.stored

unfoldable pub write : Ledger → SampleDb → SampleDb
write ledger db =
    if db.active then record db { working = ledger } else record db { stored = ledger }

unfoldable pub sample_run : Statement → SampleDb → Reply × SampleDb
unfolding seen write
sample_run begin_immediate db =
    if db.active then (failed, db) else (done 0, record db { active = true; working = db.stored })
sample_run commit db =
    if db.active then (done 0, record db { active = false; stored = db.working }) else (failed, db)
sample_run rollback db = if db.active then (done 0, record db { active = false }) else (failed, db)
sample_run (insert_utxo tx_id index address amount) db = elim (find (tx_id, index) (seen db)) [
  | none ↦ (done 1, write (insert (tx_id, index) (address, amount) (seen db)) db)
  | some output ↦ (failed, db)
]
sample_run (select_utxo tx_id index) db = elim (find (tx_id, index) (seen db)) [
  | none ↦ (rows [], db)
  | some output ↦ (rows ((text output.0 ∷ integer output.1 ∷ []) ∷ []), db)
]
sample_run (delete_utxo tx_id index) db = (
  done (if contains (tx_id, index) (seen db) then 1 else 0),
  write (erase (tx_id, index) (seen db)) db,
)
sample_run _ db = (done 0, db)

sample_run-inner :
    (s : Statement) (db : SampleDb)
    → is_inner s ≡ true
    → db.active ≡ true
    → ((sample_run s db).1.stored ≡ db.stored)
      × (succeeds (sample_run s db).0 ≡ true → (sample_run s db).1.active ≡ true)
unfolding sample_run write
sample_run-inner begin_immediate db i h = (ground (arith, i), λ e. ground (arith, i))
sample_run-inner commit db i h = (ground (arith, i), λ e. ground (arith, i))
sample_run-inner rollback db i h = (ground (arith, i), λ e. ground (arith, i))
sample_run-inner wal_checkpoint db i h = (refl, λ e. h)
sample_run-inner (replace_block a b c d e) db i h = (refl, λ e. h)
sample_run-inner (select_block_by_hash a) db i h = (refl, λ e. h)
sample_run-inner (select_block_by_height a) db i h = (refl, λ e. h)
sample_run-inner select_max_height db i h = (refl, λ e. h)
sample_run-inner (replace_transaction a b c) db i h = (refl, λ e. h)
sample_run-inner (update_block_hash a b) db i h = (refl, λ e. h)
sample_run-inner (select_transaction a) db i h = (refl, λ e. h)
sample_run-inner (select_block_transactions a) db i h = (refl, λ e. h)
sample_run-inner select_all_transactions db i h = (refl, λ e. h)
sample_run-inner (insert_utxo a b c d) db i h = (ground (arith, h), λ e. ground (arith, h))
sample_run-inner (select_utxo a b) db i h = (ground (arith, h), λ e. ground (arith, h))
sample_run-inner (delete_utxo a b) db i h = (ground (arith, h), λ e. ground (arith, h))
sample_run-inner (upsert_account a b c d) db i h = (refl, λ e. h)
sample_run-inner (select_account a) db i h = (refl, λ e. h)
sample_run-inner (update_account_balance a b) db i h = (refl, λ e. h)
sample_run-inner (increment_account_nonce a) db i h = (refl, λ e. h)
sample_run-inner (upsert_validator a b c d e f) db i h = (refl, λ e. h)
sample_run-inner (select_validator a) db i h = (refl, λ e. h)
sample_run-inner select_all_validators db i h = (refl, λ e. h)
sample_run-inner (update_validator_amount a b) db i h = (refl, λ e. h)
sample_run-inner (delete_validator a) db i h = (refl, λ e. h)
sample_run-inner (upsert_contract_storage a b c) db i h = (refl, λ e. h)
sample_run-inner (select_contract_storage a b) db i h = (refl, λ e. h)
sample_run-inner (select_contract_all_storage a) db i h = (refl, λ e. h)
sample_run-inner (upsert_contract a b) db i h = (refl, λ e. h)
sample_run-inner (select_contract a) db i h = (refl, λ e. h)
sample_run-inner (replace_mempool a b c) db i h = (refl, λ e. h)
sample_run-inner (select_mempool_transaction a) db i h = (refl, λ e. h)
sample_run-inner (select_mempool a) db i h = (refl, λ e. h)
sample_run-inner (delete_mempool a) db i h = (refl, λ e. h)
sample_run-inner delete_all_mempool db i h = (refl, λ e. h)
sample_run-inner (replace_state_root a b) db i h = (refl, λ e. h)
sample_run-inner (select_state_root a) db i h = (refl, λ e. h)

sample_run-others :
    (s : Statement) (db : SampleDb)
    → is_inner s ≡ true
    → writes_utxos s ≡ false
    → ((sample_run s db).1.stored ≡ db.stored)
      × (db.active ≡ true → (sample_run s db).1.active ≡ true → seen (sample_run s db).1 ≡ seen db)
unfolding sample_run
sample_run-others begin_immediate db i w = (ground (arith, i), λ a e. ground (arith, i))
sample_run-others commit db i w = (ground (arith, i), λ a e. ground (arith, i))
sample_run-others rollback db i w = (ground (arith, i), λ a e. ground (arith, i))
sample_run-others wal_checkpoint db i w = (refl, λ a e. refl)
sample_run-others (replace_block a b c d e) db i w = (refl, λ a e. refl)
sample_run-others (select_block_by_hash a) db i w = (refl, λ a e. refl)
sample_run-others (select_block_by_height a) db i w = (refl, λ a e. refl)
sample_run-others select_max_height db i w = (refl, λ a e. refl)
sample_run-others (replace_transaction a b c) db i w = (refl, λ a e. refl)
sample_run-others (update_block_hash a b) db i w = (refl, λ a e. refl)
sample_run-others (select_transaction a) db i w = (refl, λ a e. refl)
sample_run-others (select_block_transactions a) db i w = (refl, λ a e. refl)
sample_run-others select_all_transactions db i w = (refl, λ a e. refl)
sample_run-others (insert_utxo a b c d) db i w = (ground (arith, w), λ a e. ground (arith, w))
sample_run-others (select_utxo a b) db i w = (ground arith, λ a e. ground arith)
sample_run-others (delete_utxo a b) db i w = (ground (arith, w), λ a e. ground (arith, w))
sample_run-others (upsert_account a b c d) db i w = (refl, λ a e. refl)
sample_run-others (select_account a) db i w = (refl, λ a e. refl)
sample_run-others (update_account_balance a b) db i w = (refl, λ a e. refl)
sample_run-others (increment_account_nonce a) db i w = (refl, λ a e. refl)
sample_run-others (upsert_validator a b c d e f) db i w = (refl, λ a e. refl)
sample_run-others (select_validator a) db i w = (refl, λ a e. refl)
sample_run-others select_all_validators db i w = (refl, λ a e. refl)
sample_run-others (update_validator_amount a b) db i w = (refl, λ a e. refl)
sample_run-others (delete_validator a) db i w = (refl, λ a e. refl)
sample_run-others (upsert_contract_storage a b c) db i w = (refl, λ a e. refl)
sample_run-others (select_contract_storage a b) db i w = (refl, λ a e. refl)
sample_run-others (select_contract_all_storage a) db i w = (refl, λ a e. refl)
sample_run-others (upsert_contract a b) db i w = (refl, λ a e. refl)
sample_run-others (select_contract a) db i w = (refl, λ a e. refl)
sample_run-others (replace_mempool a b c) db i w = (refl, λ a e. refl)
sample_run-others (select_mempool_transaction a) db i w = (refl, λ a e. refl)
sample_run-others (select_mempool a) db i w = (refl, λ a e. refl)
sample_run-others (delete_mempool a) db i w = (refl, λ a e. refl)
sample_run-others delete_all_mempool db i w = (refl, λ a e. refl)
sample_run-others (replace_state_root a b) db i w = (refl, λ a e. refl)
sample_run-others (select_state_root a) db i w = (refl, λ a e. refl)

sample_run-ended :
    (s : Statement) (db : SampleDb)
    → is_inner s ≡ true
    → db.active ≡ false
    → (sample_run s db).1.active ≡ false
unfolding sample_run write
sample_run-ended begin_immediate db i h = ground (arith, i)
sample_run-ended commit db i h = ground (arith, i)
sample_run-ended rollback db i h = ground (arith, i)
sample_run-ended wal_checkpoint db i h = h
sample_run-ended (replace_block a b c d e) db i h = h
sample_run-ended (select_block_by_hash a) db i h = h
sample_run-ended (select_block_by_height a) db i h = h
sample_run-ended select_max_height db i h = h
sample_run-ended (replace_transaction a b c) db i h = h
sample_run-ended (update_block_hash a b) db i h = h
sample_run-ended (select_transaction a) db i h = h
sample_run-ended (select_block_transactions a) db i h = h
sample_run-ended select_all_transactions db i h = h
sample_run-ended (insert_utxo a b c d) db i h = ground (arith, h)
sample_run-ended (select_utxo a b) db i h = ground (arith, h)
sample_run-ended (delete_utxo a b) db i h = ground (arith, h)
sample_run-ended (upsert_account a b c d) db i h = h
sample_run-ended (select_account a) db i h = h
sample_run-ended (update_account_balance a b) db i h = h
sample_run-ended (increment_account_nonce a) db i h = h
sample_run-ended (upsert_validator a b c d e f) db i h = h
sample_run-ended (select_validator a) db i h = h
sample_run-ended select_all_validators db i h = h
sample_run-ended (update_validator_amount a b) db i h = h
sample_run-ended (delete_validator a) db i h = h
sample_run-ended (upsert_contract_storage a b c) db i h = h
sample_run-ended (select_contract_storage a b) db i h = h
sample_run-ended (select_contract_all_storage a) db i h = h
sample_run-ended (upsert_contract a b) db i h = h
sample_run-ended (select_contract a) db i h = h
sample_run-ended (replace_mempool a b c) db i h = h
sample_run-ended (select_mempool_transaction a) db i h = h
sample_run-ended (select_mempool a) db i h = h
sample_run-ended (delete_mempool a) db i h = h
sample_run-ended delete_all_mempool db i h = h
sample_run-ended (replace_state_root a b) db i h = h
sample_run-ended (select_state_root a) db i h = h

pub sample_run-IsSqlite : IsSqlite sample_run (λ db. db.active) seen (λ db. db.stored)
unfolding sample_run seen write is_done rows_of text_at integer_at
sample_run-IsSqlite = record {
  begins = λ db h. ground (arith, h);
  begin_keeps = λ db. ground arith;
  inner = sample_run-inner;
  others = sample_run-others;
  ended = sample_run-ended;
  nothing_to_commit = λ db h. ground (arith, h);
  inserts = λ tx_id index address amount db h. ground (arith, h);
  selects = λ tx_id index db row rest h. ground (arith, h);
  deletes = λ tx_id index changes db h. ground (arith, h);
  commits = λ db h. ground (arith, h);
  commit_fails = λ db h. ground (arith, h);
  rolls_back = λ db. ground arith;
}

pub sample_run-EndsNoTransaction : EndsNoTransaction sample_run (λ db. db.active)
unfolding sample_run
sample_run-EndsNoTransaction tx_id db h e = cc
