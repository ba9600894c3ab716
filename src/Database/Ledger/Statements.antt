-- ===== src/Database/Ledger/Statements.antt =====
-- What each statement on the table of unspent outputs does inside a transaction.
use mermai_blockchain.Base.{
  ℕ, ◌≡◌, refl, ◌∙◌, Bool, true, false, ◌||◌, Option, none, some, List, [], ◌∷◌, arith, is_empty,
  Bool-cases, inl, inr, if◌then◌else◌,
}
use mermai_blockchain.Base.Key.{Bytes, bytes_key, nat_key, pair_key, ◌==◌}
use mermai_blockchain.Base.Map.{find, insert, erase, contains}
use mermai_blockchain.Database.{
  UnspentOutput, Statement, insert_utxo, select_utxo, delete_utxo, Column, Reply, failed, done,
  rows, is_done, rows_of, c_string, text_at, integer_at,
}
use mermai_blockchain.Database.Store.{
  changed_one, execute, save_unspent_output, output_of_row, get_unspent_output,
  spend_unspent_output,
}
use mermai_blockchain.Database.Ledger.{Ledger, is_inner, writes_utxos, succeeds, IsSqlite}

module _ {Db : Type 0} (run : Statement → Db → Reply × Db) (active : Db → Bool)
    (utxos stored : Db → Ledger) (law : IsSqlite run active utxos stored) where
  -- A transaction is active, before which `base` was committed.
  abbrev pub InBlock : Ledger → Option Db → Type 0
  InBlock base none = ⊥
  InBlock base (some db) = (active db ≡ true) × (stored db ≡ base)

  -- The rows that statements see.
  abbrev pub table : Option Db → Ledger
  table none = []
  table (some db) = utxos db

  -- The same is committed, whether a transaction is active or has been rolled back.
  abbrev pub Kept : Ledger → Option Db → Type 0
  Kept base none = ⊥
  Kept base (some db) = stored db ≡ base

  pub InBlock-Kept : (base : Ledger) (db : Option Db) → InBlock base db → Kept base db
  InBlock-Kept base none b = b
  InBlock-Kept base (some db) b = b.1

  pub execute-Kept :
      (base : Ledger) (s : Statement) (db : Option Db)
      → is_inner s ≡ true
      → InBlock base db
      → Kept base (execute run s db).1
  unfolding execute
  execute-Kept base s none i b = absurd b
  execute-Kept base s (some db) i b = (law.inner s db i b.0).0 ∙ b.1

  pub execute-InBlock :
      (base : Ledger) (s : Statement) (db : Option Db)
      → is_inner s ≡ true
      → InBlock base db
      → succeeds (execute run s db).0 ≡ true
      → InBlock base (execute run s db).1
  unfolding execute
  execute-InBlock base s none i b ok = absurd b
  execute-InBlock base s (some db) i b ok =
      let (kept, stays) = law.inner s db i b.0 in (stays ok, kept ∙ b.1)

  -- A statement that does not write the outputs, in a transaction or not.
  pub reads-Kept :
      (base : Ledger) (s : Statement) (db : Option Db)
      → is_inner s ≡ true
      → writes_utxos s ≡ false
      → Kept base db
      → Kept base (execute run s db).1
  unfolding execute
  reads-Kept base s none i w k = k
  reads-Kept base s (some db) i w k = (law.others s db i w).0 ∙ k

  pub execute-table :
      (base : Ledger) (s : Statement) (db : Option Db)
      → is_inner s ≡ true
      → writes_utxos s ≡ false
      → InBlock base db
      → InBlock base (execute run s db).1
      → table (execute run s db).1 ≡ table db
  unfolding execute
  execute-table base s none i w b c = refl
  execute-table base s (some db) i w b c = (law.others s db i w).1 b.0 c.0

  -- No transaction is active.
  abbrev pub Ended : Option Db → Type 0
  Ended none = Unit
  Ended (some db) = active db ≡ false

  pub execute-Ended :
      (s : Statement) (db : Option Db) → is_inner s ≡ true → Ended db → Ended (execute run s db).1
  unfolding execute
  execute-Ended s none i d = d
  execute-Ended s (some db) i d = law.ended s db i d

  pub is_done-succeeds : (reply : Reply) → is_done reply ≡ true → succeeds reply ≡ true
  unfolding is_done
  is_done-succeeds failed e = cc
  is_done-succeeds (done changes) e = refl
  is_done-succeeds (rows list) e = refl

  pub save_unspent_output-creates :
      (base : Ledger) (o : UnspentOutput) (db : Option Db)
      → InBlock base db
      → Kept base (save_unspent_output run o db).1
        × ((save_unspent_output run o db).0 ≡ true
            → InBlock base (save_unspent_output run o db).1
              × (find (c_string o.tx_id, o.output_index) (table db) ≡ none)
              × (table (save_unspent_output run o db).1
                  ≡ insert
                      (c_string o.tx_id, o.output_index)
                      (c_string o.address, o.amount)
                      (table db)))
  unfolding save_unspent_output execute
  save_unspent_output-creates base o none b = absurd b
  save_unspent_output-creates base o (some db) b =
      let s = insert_utxo (c_string o.tx_id) o.output_index (c_string o.address) o.amount in
      elim (Bool-cases (is_empty o.tx_id || (is_empty o.address || o.amount == 0))) [
        | inl refused ↦ rw refused (b.1, λ e. cc)
        | inr accepted ↦ rw accepted (
          execute-Kept base s (some db) refl b,
          λ e.
              let (fresh, made) =
                law.inserts (c_string o.tx_id) o.output_index (c_string o.address) o.amount db e in
              (
                execute-InBlock base s (some db) refl b (is_done-succeeds (run s db).0 e),
                fresh,
                made,
              ),
        )
      ]

  pub get_unspent_output-finds :
      (base : Ledger) (tx_id : Bytes) (index : ℕ) (db : Option Db)
      → InBlock base db
      → Kept base (get_unspent_output run tx_id index db).1
        × ((o : UnspentOutput)
            → (get_unspent_output run tx_id index db).0 ≡ some o
            → InBlock base (get_unspent_output run tx_id index db).1
              × (table (get_unspent_output run tx_id index db).1 ≡ table db)
              × (find (c_string tx_id, index) (table db) ≡ some (o.address, o.amount)))
  unfolding get_unspent_output output_of_row execute rows_of
  get_unspent_output-finds base tx_id index none b = absurd b
  get_unspent_output-finds base tx_id index (some db) b =
      let s = select_utxo (c_string tx_id) index in
      (
        execute-Kept base s (some db) refl b,
        λ o e.
            let (ok, located) = found (run s db).0 (law.selects (c_string tx_id) index db) o e in
            let still = execute-InBlock base s (some db) refl b ok in
            (still, execute-table base s (some db) refl refl b still, located),
      )
    where
      found :
          (reply : Reply)
          → ((row : List Column) (rest : List (List Column))
              → rows_of reply ≡ row ∷ rest
              → find (c_string tx_id, index) (utxos db) ≡ some (text_at 0 row, integer_at 1 row))
          → (o : UnspentOutput) → output_of_row tx_id index (rows_of reply) ≡ some o
          → (succeeds reply ≡ true)
            × (find (c_string tx_id, index) (utxos db) ≡ some (o.address, o.amount))
      found failed h o e = cc
      found (done changes) h o e = cc
      found (rows []) h o e = cc
      found (rows (row ∷ rest)) h o e = (refl, ground (arith, h row rest refl, e))

  pub spend_unspent_output-spends :
      (base : Ledger) (tx_id : Bytes) (index : ℕ) (db : Option Db)
      → InBlock base db
      → Kept base (spend_unspent_output run tx_id index db).1
        × ((spend_unspent_output run tx_id index db).0 ≡ true
            → InBlock base (spend_unspent_output run tx_id index db).1
              × (contains (c_string tx_id, index) (table db) ≡ true)
              × (table (spend_unspent_output run tx_id index db).1
                  ≡ erase (c_string tx_id, index) (table db)))
  unfolding spend_unspent_output changed_one execute
  spend_unspent_output-spends base tx_id index none b = absurd b
  spend_unspent_output-spends base tx_id index (some db) b =
      let s = delete_utxo (c_string tx_id) index in
      (
        execute-Kept base s (some db) refl b,
        λ e.
            let (ok, present, erased) =
              spent (run s db).0 (λ changes. law.deletes (c_string tx_id) index changes db) e in
            (execute-InBlock base s (some db) refl b ok, present, erased),
      )
    where
      spent :
          (reply : Reply)
          → ((changes : ℕ)
              → reply ≡ done changes
              → (changes ≡ (if contains (c_string tx_id, index) (utxos db) then 1 else 0))
                × (utxos (run (delete_utxo (c_string tx_id) index) db).1
                    ≡ erase (c_string tx_id, index) (utxos db)))
          → changed_one reply ≡ true
          → (succeeds reply ≡ true)
            × (contains (c_string tx_id, index) (utxos db) ≡ true)
            × (utxos (run (delete_utxo (c_string tx_id) index) db).1
                ≡ erase (c_string tx_id, index) (utxos db))
      spent failed h e = cc
      spent (rows list) h e = cc
      spent (done changes) h e =
          let (one, erased) = h changes refl in (refl, ground (arith, one, e), erased)
