-- ===== src/Database/Ledger/Refinement/Settling.antt =====
-- How the transactions of a block settle the abstract ledger.
use mermai_blockchain.Base.{
  ℕ, ◌≡◌, refl, sym, ap, ◌∙◌, Bool, true, Option, none, some, List, [], ◌∷◌, arith, is_empty,
  Bool-cases, ◌⊎◌, Option-cases, inl, inr,
}
use mermai_blockchain.Base.Key.{Bytes, bytes_key, nat_key, pair_key}
use mermai_blockchain.Crypto.{Crypto}
use mermai_blockchain.Transaction.{Transaction}
use mermai_blockchain.Transaction.Verify.{verify_transaction}
use mermai_blockchain.Database.{Statement, delete_mempool, Reply, c_string}
use mermai_blockchain.Database.Store.{
  id_of, outputs_total, execute, inputs_total, validate_transaction_inputs, save_outputs,
  remove_from_mempool, apply_inputs, apply_transactions,
}
use mermai_blockchain.Database.Ledger.{
  Ledger, spend_all, is_covered, settle, settle_all, succeeds, IsSqlite, EndsNoTransaction,
}
use mermai_blockchain.Database.Ledger.Refinement.{
  outputs_total_value, inputs_total-owned, spend_inputs-spends, save_outputs-creates,
}
use mermai_blockchain.Database.Ledger.Statements.{
  InBlock, Kept, Ended, InBlock-Kept, table, execute-Kept, execute-InBlock, execute-table,
}
use mermai_blockchain.Database.Ledger.Ended.{apply_transactions-Ended}

module _ {Db : Type 0} (run : Statement → Db → Reply × Db) (active : Db → Bool)
    (utxos stored : Db → Ledger) (law : IsSqlite run active utxos stored) where
  validate_transaction_inputs-covers :
      (base : Ledger) (crypto : Crypto) (now : ℕ) (tx : Transaction) (db : Option Db)
      → InBlock run active utxos stored law base db
      → Kept run active utxos stored law base (validate_transaction_inputs run crypto now tx db).1
        × ((validate_transaction_inputs run crypto now tx db).0 ≡ true
            → InBlock run active utxos stored law base
                (validate_transaction_inputs run crypto now tx db).1
              × (table run active utxos stored law
                    (validate_transaction_inputs run crypto now tx db).1
                  ≡ table run active utxos stored law db)
              × (verify_transaction crypto now tx ≡ true)
              × (is_covered crypto (table run active utxos stored law db) tx ≡ true))
  unfolding validate_transaction_inputs
  validate_transaction_inputs-covers base crypto now tx none b = absurd b
  validate_transaction_inputs-covers base crypto now tx (some db) b =
      elim (Bool-cases (verify_transaction crypto now tx)) [
        | inr invalid ↦ rw (invalid, validate_transaction_inputs) (b.1, λ e. cc)
        | inl valid ↦ (elim (Option-cases (outputs_total tx.fee tx.outputs)) [
          | inl overflow ↦ rw (valid, overflow, validate_transaction_inputs) (b.1, λ e. cc)
          | inr (expected, sum) ↦
              let (kept, owned) =
                inputs_total-owned run active utxos stored law base crypto 0 tx.inputs (some db)
                  b in
              (elim (Option-cases (inputs_total run crypto 0 tx.inputs (some db)).0) [
                | inl missing ↦
                    rw (valid, sum, missing, validate_transaction_inputs) (kept, λ e. cc)
                | inr (total, found) ↦
                    let (b', same, value, whole, exact) = owned total found in
                    let paid = outputs_total_value tx.fee expected tx.outputs sum in
                    rw (valid, sum, found, validate_transaction_inputs)
                      (kept, λ e. (b', same, refl, ground (arith, e, whole, exact, paid)))
              ])
        ])
      ]

  apply_inputs-settles :
      (base : Ledger) (crypto : Crypto) (now : ℕ) (tx : Transaction) (db : Option Db)
      → InBlock run active utxos stored law base db
      → Kept run active utxos stored law base (apply_inputs run crypto now tx db).1
        × ((apply_inputs run crypto now tx db).0 ≡ true
            → InBlock run active utxos stored law base (apply_inputs run crypto now tx db).1
              × (settle crypto now tx (table run active utxos stored law db)
                  ≡ some (table run active utxos stored law (apply_inputs run crypto now tx db).1)))
  unfolding apply_inputs settle
  apply_inputs-settles base crypto now tx db b =
      let checked = validate_transaction_inputs run crypto now tx db in
      let (kept, covers) = validate_transaction_inputs-covers base crypto now tx db b in
      elim (Bool-cases (is_empty tx.inputs)) [
        | inl free ↦
            rw (free, apply_inputs, settle)
              (InBlock-Kept run active utxos stored law base db b, λ e. (b, refl))
        | inr paying ↦ (elim (Bool-cases checked.0) [
          | inr refused ↦ rw (paying, refused, apply_inputs) (kept, λ e. cc)
          | inl accepted ↦
              let (still, same, valid, covered) = covers accepted in
              let (kept', spends) =
                spend_inputs-spends run active utxos stored law base tx.inputs checked.1 still in
              rw (paying, accepted, valid, covered, apply_inputs, settle)
                (
                  kept',
                  λ e.
                      let (b', spent) = spends e in
                      (b', ap (λ ledger. spend_all tx.inputs ledger) (sym same) ∙ spent),
                )
        ])
      ]

  -- A failing DELETE on the mempool, whose result the code drops, may have ended the transaction.
  forget-InBlock :
      (base : Ledger) (tx_id : Bytes) (db : Option Db)
      → InBlock run active utxos stored law base db
      → Ended run active utxos stored law (execute run (delete_mempool tx_id) db).1
        ⊎ InBlock run active utxos stored law base (execute run (delete_mempool tx_id) db).1
          × (table run active utxos stored law (execute run (delete_mempool tx_id) db).1
              ≡ table run active utxos stored law db)
  unfolding execute
  forget-InBlock base tx_id none b = absurd b
  forget-InBlock base tx_id (some db) b =
      let s = delete_mempool tx_id in
      elim (Bool-cases (active (run s db).1)) [
        | inl on ↦
            let still : InBlock run active utxos stored law base (some (run s db).1) =
              (on, execute-Kept run active utxos stored law base s (some db) refl b) in
            inr
              (still, execute-table run active utxos stored law base s (some db) refl refl b still)
        | inr off ↦ inl off
      ]

  pub apply_transactions-settle :
      (base : Ledger) (crypto : Crypto) (now : ℕ) (txs : List Transaction) (db : Option Db)
      → InBlock run active utxos stored law base db
      → (apply_transactions run crypto now txs db).0 ≡ true
      → Ended run active utxos stored law (apply_transactions run crypto now txs db).1
        ⊎ InBlock run active utxos stored law base (apply_transactions run crypto now txs db).1
          × (settle_all crypto now txs (table run active utxos stored law db)
              ≡ some
                  (table run active utxos stored law (apply_transactions run crypto now txs db).1))
  unfolding apply_transactions settle_all remove_from_mempool
  apply_transactions-settle base crypto now [] db b e = inr (b, refl)
  apply_transactions-settle base crypto now (tx ∷ txs) db b e =
      let id = id_of crypto tx in
      let spent = apply_inputs run crypto now tx db in
      let saved = save_outputs run id 0 tx.outputs spent.1 in
      let next = (execute run (delete_mempool (c_string id)) saved.1).1 in
      let (kept, settles) = apply_inputs-settles base crypto now tx db b in
      elim (Bool-cases spent.0) [
        | inr refused ↦ absurd (ground (arith, e, refused))
        | inl paid ↦
            let (b1, settled) = settles paid in
            let (kept', creates) =
              save_outputs-creates run active utxos stored law base id 0 tx.outputs spent.1 b1 in
            (elim (Bool-cases saved.0) [
              | inr refused ↦ absurd (ground (arith, e, paid, refused))
              | inl made ↦
                  let (b2, created) = creates made in
                  let e' : (apply_transactions run crypto now txs next).0 ≡ true =
                    ground (arith, e, paid, made) in
                  rw (paid, made)
                    (elim (forget-InBlock base (c_string id) saved.1 b2) [
                      | inl ended ↦ inl (
                          apply_transactions-Ended run active utxos stored law crypto now txs next
                            ended)
                      | inr (b3, same) ↦
                          (elim (apply_transactions-settle base crypto now txs next b3 e') [
                            | inl ended ↦ inl ended
                            | inr (b4, later) ↦
                                inr (b4, ground (arith, settled, created, later, same))
                          ])
                    ])
            ])
      ]

  -- If the failure of that statement does not end the transaction, it is active still.
  forget_still-InBlock :
      (base : Ledger) (tx_id : Bytes) (db : Option Db)
      → EndsNoTransaction run active
      → InBlock run active utxos stored law base db
      → InBlock run active utxos stored law base (execute run (delete_mempool tx_id) db).1
  unfolding execute
  forget_still-InBlock base tx_id none ends b = absurd b
  forget_still-InBlock base tx_id (some db) ends b =
      let s = delete_mempool tx_id in
      elim (Bool-cases (succeeds (run s db).0)) [
        | inl ok ↦ execute-InBlock run active utxos stored law base s (some db) refl b ok
        | inr failing ↦ (
          ends tx_id db b.0 failing,
          execute-Kept run active utxos stored law base s (some db) refl b,
        )
      ]

  pub apply_transactions-Kept :
      (base : Ledger) (crypto : Crypto) (now : ℕ) (txs : List Transaction) (db : Option Db)
      → EndsNoTransaction run active
      → InBlock run active utxos stored law base db
      → Kept run active utxos stored law base (apply_transactions run crypto now txs db).1
        × ((apply_transactions run crypto now txs db).0 ≡ true
            → InBlock run active utxos stored law base (apply_transactions run crypto now txs db).1)
  unfolding apply_transactions remove_from_mempool
  apply_transactions-Kept base crypto now [] db ends b =
      (InBlock-Kept run active utxos stored law base db b, λ e. b)
  apply_transactions-Kept base crypto now (tx ∷ txs) db ends b =
      let id = id_of crypto tx in
      let spent = apply_inputs run crypto now tx db in
      let saved = save_outputs run id 0 tx.outputs spent.1 in
      let next = (execute run (delete_mempool (c_string id)) saved.1).1 in
      let (kept, settles) = apply_inputs-settles base crypto now tx db b in
      elim (Bool-cases spent.0) [
        | inr refused ↦ rw refused (kept, λ e. cc)
        | inl paid ↦
            let (kept', creates) =
              save_outputs-creates run active utxos stored law base id 0 tx.outputs spent.1
                (settles paid).0 in
            (elim (Bool-cases saved.0) [
              | inr refused ↦ rw (paid, refused) (kept', λ e. cc)
              | inl made ↦
                  rw (paid, made)
                    (apply_transactions-Kept base crypto now txs next ends
                      (forget_still-InBlock base (c_string id) saved.1 ends (creates made).0))
            ])
      ]
