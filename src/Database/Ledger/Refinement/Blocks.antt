-- ===== src/Database/Ledger/Refinement/Blocks.antt =====
-- `apply_block` of src/db/mermai_db.cpp against the abstract ledger.
use mermai_blockchain.Base.{
  ℕ, ◌+◌, ◌≡◌, refl, sym, ap, ◌∙◌, Bool, true, false, Option, none, some, arith, Bool-cases, inl,
  inr, ◌⊎◌,
}
use mermai_blockchain.Base.Key.{bytes_key, nat_key, pair_key}
use mermai_blockchain.Crypto.{Crypto, hex_encode}
use mermai_blockchain.Block.{Block, calculate_hash, serialize_block}
use mermai_blockchain.Database.{
  Statement, begin_immediate, commit, rollback, replace_block, Reply, is_done, c_string,
}
use mermai_blockchain.Database.Store.{
  execute, apply_transactions, save_transactions, save_block, apply_changes, apply_block,
}
use mermai_blockchain.Database.Ledger.{Ledger, settle_all, IsSqlite, EndsNoTransaction}
use mermai_blockchain.Database.Ledger.Conservation.{total_value, created, fees, settle_all_value}
use mermai_blockchain.Database.Ledger.Refinement.{committed}
use mermai_blockchain.Database.Ledger.Statements.{
  InBlock, Kept, Ended, InBlock-Kept, execute-Ended, table, reads-Kept, execute-InBlock,
  execute-table, is_done-succeeds,
}
use mermai_blockchain.Base.Map.Unique.{IsUnique}
use mermai_blockchain.Database.Ledger.Refinement.Settling.{
  apply_transactions-settle, apply_transactions-Kept,
}
use mermai_blockchain.Database.Ledger.Ended.{save_transactions-Ended}
use mermai_blockchain.Database.Ledger.Refinement.Saving.{
  save_transactions-Kept, save_transactions-result, save_transactions-InBlock,
}

module _ {Db : Type 0} (run : Statement → Db → Reply × Db) (active : Db → Bool)
    (utxos stored : Db → Ledger) (law : IsSqlite run active utxos stored) where
  apply_changes-settle :
      (base : Ledger) (crypto : Crypto) (now : ℕ) (block : Block) (db : Option Db)
      → InBlock run active utxos stored law base db
      → (apply_changes run crypto now block db).0 ≡ true
      → Ended run active utxos stored law (apply_changes run crypto now block db).1
        ⊎ InBlock run active utxos stored law base (apply_changes run crypto now block db).1
          × (settle_all crypto now block.transactions (table run active utxos stored law db)
              ≡ some (table run active utxos stored law (apply_changes run crypto now block db).1))
  unfolding apply_changes save_block
  apply_changes-settle base crypto now block db b e =
      let txs = block.transactions in
      let applied = apply_transactions run crypto now txs db in
      let hash = hex_encode (calculate_hash crypto block) in
      let first =
        replace_block (c_string hash) block.height (c_string block.prev_block_hash) block.timestamp
          (serialize_block block) in
      let saved = execute run first applied.1 in
      elim (Bool-cases applied.0) [
        | inr refused ↦ absurd (ground (arith, e, refused))
        | inl accepted ↦
            let e' : (save_transactions run crypto hash (is_done saved.0) txs saved.1).0 ≡ true =
              ground (arith, e, accepted) in
            let ok = is_done-succeeds run active utxos stored law saved.0 (
              save_transactions-result run active utxos stored law crypto hash (is_done saved.0) txs
                saved.1 e') in
            rw accepted
              (elim (apply_transactions-settle run active utxos stored law base crypto now txs db b
                accepted) [
                  | inl ended ↦ inl (
                      save_transactions-Ended run active utxos stored law crypto hash
                        (is_done saved.0) txs saved.1
                        (execute-Ended run active utxos stored law first applied.1 refl ended))
                  | inr (b1, settled) ↦
                      let b2 =
                        execute-InBlock run active utxos stored law base first applied.1 refl b1
                          ok in
                      let (b3, same) =
                        save_transactions-InBlock run active utxos stored law base crypto hash
                          (is_done saved.0) txs saved.1 b2 e' in
                      let stays =
                        execute-table run active utxos stored law base first applied.1 refl refl b1
                          b2 in
                      inr (b3, settled ∙ ap (λ ledger. some ledger) (sym (same ∙ stays)))
                ])
      ]

  apply_changes-Kept :
      (base : Ledger) (crypto : Crypto) (now : ℕ) (block : Block) (db : Option Db)
      → EndsNoTransaction run active
      → InBlock run active utxos stored law base db
      → Kept run active utxos stored law base (apply_changes run crypto now block db).1
        × ((apply_changes run crypto now block db).0 ≡ true
            → InBlock run active utxos stored law base (apply_changes run crypto now block db).1)
  unfolding apply_changes save_block
  apply_changes-Kept base crypto now block db ends b =
      let txs = block.transactions in
      let applied = apply_transactions run crypto now txs db in
      let hash = hex_encode (calculate_hash crypto block) in
      let first =
        replace_block (c_string hash) block.height (c_string block.prev_block_hash) block.timestamp
          (serialize_block block) in
      let saved = execute run first applied.1 in
      let (kept, stays) =
        apply_transactions-Kept run active utxos stored law base crypto now txs db ends b in
      elim (Bool-cases applied.0) [
        | inr refused ↦ rw refused (kept, λ e. absurd (ground (arith, e, refused)))
        | inl accepted ↦
            let b1 = stays accepted in
            rw accepted (
              save_transactions-Kept run active utxos stored law base crypto hash (is_done saved.0)
                  txs saved.1
                  (reads-Kept run active utxos stored law base first applied.1 refl refl
                    (InBlock-Kept run active utxos stored law base applied.1 b1)),
              λ e.
                  let ok = is_done-succeeds run active utxos stored law saved.0 (
                    save_transactions-result run active utxos stored law crypto hash
                      (is_done saved.0) txs saved.1 e) in
                  (save_transactions-InBlock run active utxos stored law base crypto hash
                    (is_done saved.0) txs saved.1
                    (execute-InBlock run active utxos stored law base first applied.1 refl b1 ok)
                    e).0,
            )
      ]

  rollback-keeps :
      (base : Ledger) (db : Option Db)
      → Kept run active utxos stored law base db
      → committed stored (execute run rollback db).1 ≡ base
  unfolding execute
  rollback-keeps base none k = absurd k
  rollback-keeps base (some db) k = law.rolls_back db ∙ k

  commit-stores :
      (base : Ledger) (db : Option Db)
      → InBlock run active utxos stored law base db
      → (is_done (execute run commit db).0 ≡ true
          → committed stored (execute run commit db).1 ≡ table run active utxos stored law db)
        × (is_done (execute run commit db).0 ≡ false
            → committed stored (execute run commit db).1 ≡ base)
  unfolding execute
  commit-stores base none b = absurd b
  commit-stores base (some db) b = (law.commits db, λ e. law.commit_fails db e ∙ b.1)

  commit-Ended :
      (db : Option Db)
      → Ended run active utxos stored law db
      → is_done (execute run commit db).0 ≡ false
  unfolding execute is_done
  commit-Ended none d = refl
  commit-Ended (some db) d = law.nothing_to_commit db d

  apply_block-settles :
      (crypto : Crypto) (now : ℕ) (block : Block) (db : Option Db)
      → (apply_block run crypto now block db).0 ≡ true
      → settle_all crypto now block.transactions (committed stored db)
        ≡ some (committed stored (apply_block run crypto now block db).1)
  unfolding apply_block execute is_done
  apply_block-settles crypto now block none e = cc
  apply_block-settles crypto now block (some db) e =
      let begun = (run begin_immediate db).1 in
      let changed = apply_changes run crypto now block (some begun) in
      elim (Bool-cases (is_done (run begin_immediate db).0)) [
        | inr refused ↦ absurd (ground (arith, e, refused))
        | inl ready ↦
            let (now_active, sees) = law.begins db ready in
            let b : InBlock run active utxos stored law (stored db) (some begun) =
              (now_active, law.begin_keeps db) in
            (elim (Bool-cases changed.0) [
              | inr refused ↦ absurd (ground (arith, e, ready, refused))
              | inl accepted ↦
                  let ok : is_done (execute run commit changed.1).0 ≡ true =
                    rw (ready, accepted, apply_block) at e in
                  (elim (apply_changes-settle (stored db) crypto now block (some begun) b
                    accepted) [
                      | inl ended ↦
                          let none_active = commit-Ended changed.1 ended in
                          absurd (ground (arith, ok, none_active))
                      | inr (b', settled) ↦
                          let stores = (commit-stores (stored db) changed.1 b').0 ok in
                          rw (ready, accepted, apply_block)
                            (ap (λ ledger. settle_all crypto now block.transactions ledger)
                                (sym sees)
                              ∙ settled
                              ∙ ap (λ ledger. some ledger) (sym stores))
                    ])
            ])
      ]

  apply_block-keeps :
      (crypto : Crypto) (now : ℕ) (block : Block) (db : Option Db)
      → EndsNoTransaction run active
      → (apply_block run crypto now block db).0 ≡ false
      → committed stored (apply_block run crypto now block db).1 ≡ committed stored db
  unfolding apply_block execute is_done
  apply_block-keeps crypto now block none ends e = refl
  apply_block-keeps crypto now block (some db) ends e =
      let begun = (run begin_immediate db).1 in
      let changed = apply_changes run crypto now block (some begun) in
      elim (Bool-cases (is_done (run begin_immediate db).0)) [
        | inr refused ↦ rw (refused, apply_block) (law.begin_keeps db)
        | inl ready ↦
            let (now_active, sees) = law.begins db ready in
            let (kept, stays) =
              apply_changes-Kept (stored db) crypto now block (some begun) ends
                (now_active, law.begin_keeps db) in
            (elim (Bool-cases changed.0) [
              | inr refused ↦
                  rw (ready, refused, apply_block) (rollback-keeps (stored db) changed.1 kept)
              | inl accepted ↦
                  let failing : is_done (execute run commit changed.1).0 ≡ false =
                    rw (ready, accepted, apply_block) at e in
                  rw (ready, accepted, apply_block)
                    ((commit-stores (stored db) changed.1 (stays accepted)).1 failing)
            ])
      ]

  -- Over SQLite, when `apply_block` returns true the committed outputs are those that the abstract
  -- ledger has after the block's transactions, each settled in its turn; when it returns false they
  -- are as they were, whatever statement failed, and also if SQLite has ended the transaction by
  -- itself for the failure. The one exception is assumed away: that it does so when a DELETE on the
  -- mempool fails, whose result the code drops.
  pub apply_block-refines :
      (crypto : Crypto) (now : ℕ) (block : Block) (db : Option Db)
      → EndsNoTransaction run active
      → ((apply_block run crypto now block db).0 ≡ true)
          × (settle_all crypto now block.transactions (committed stored db)
              ≡ some (committed stored (apply_block run crypto now block db).1))
        ⊎ ((apply_block run crypto now block db).0 ≡ false)
          × (committed stored (apply_block run crypto now block db).1 ≡ committed stored db)
  apply_block-refines crypto now block db ends =
      elim (Bool-cases (apply_block run crypto now block db).0) [
        | inl accepted ↦ inl (accepted, apply_block-settles crypto now block db accepted)
        | inr refused ↦ inr (refused, apply_block-keeps crypto now block db ends refused)
      ]

  -- Over SQLite, with no output committed twice, a block that `apply_block` accepts leaves outputs
  -- worth as much as before, less the fees of the transactions with inputs, plus the outputs of the
  -- transactions without inputs.
  pub apply_block_value :
      (crypto : Crypto) (now : ℕ) (block : Block) (db : Option Db)
      → IsUnique (committed stored db)
      → (apply_block run crypto now block db).0 ≡ true
      → total_value (committed stored (apply_block run crypto now block db).1)
          + fees block.transactions
        ≡ total_value (committed stored db) + created block.transactions
  apply_block_value crypto now block db u e =
      (settle_all_value crypto now block.transactions (committed stored db) _ u
        (apply_block-settles crypto now block db e)).0
