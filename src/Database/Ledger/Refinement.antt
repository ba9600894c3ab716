-- ===== src/Database/Ledger/Refinement.antt =====
-- What the statements of `apply_block` do to the unspent outputs.
pub mod Settling
pub mod Saving
pub mod Blocks
use mermai_blockchain.Base.{
  ℕ, zero, suc, ◌+◌, ◌-◌, ◌≡◌, refl, sym, ap, ◌∙◌, Bool, true, false, ◌&&◌, ◌||◌, not, Option, none,
  some, List, [], ◌∷◌, arith, is_empty, ltb, Bool-cases, Option-cases, inl, inr, if◌then◌else◌,
}
use mermai_blockchain.Base.Words.{u64_max}
use mermai_blockchain.Base.Key.{Bytes, bytes_key, nat_key, pair_key, ◌==◌, ◌!=◌, ==_sound, ==_refl}
use mermai_blockchain.Base.Map.{find, insert, erase, contains, contains-eq-false}
use mermai_blockchain.Crypto.{Crypto}
use mermai_blockchain.Transaction.{TxInput, TxOutput, Transaction}
use mermai_blockchain.Transaction.Verify.{Outpoint, verify_transaction}
use mermai_blockchain.Block.{Block}
use mermai_blockchain.Database.{
  UnspentOutput, Statement, begin_immediate, commit, rollback, replace_block, replace_transaction,
  update_block_hash, insert_utxo, select_utxo, delete_utxo, delete_mempool, Column, Reply, failed,
  done, rows, is_done, rows_of, c_string, text_at, integer_at,
}
use mermai_blockchain.Database.Store.{
  address_from_public_key, id_of, changed_one, outputs_total, execute, save_unspent_output,
  output_of_row, get_unspent_output, spend_unspent_output, inputs_total,
  validate_transaction_inputs, spend_inputs, save_outputs, remove_from_mempool, apply_inputs,
  apply_transactions, save_transaction, save_transactions, save_block, apply_changes, apply_block,
}
use mermai_blockchain.Database.Ledger.{
  Ledger, spent_by, owned_value, spend_all, create_all, value_of, is_covered, settle, settle_all,
  is_inner, writes_utxos, IsSqlite,
}
use mermai_blockchain.Database.Ledger.Statements.{
  InBlock, Kept, InBlock-Kept, table, execute-InBlock, execute-table, save_unspent_output-creates,
  get_unspent_output-finds, spend_unspent_output-spends,
}

-- What is committed behind a connection.
abbrev pub committed : {Db : Type 0} → (Db → Ledger) → Option Db → Ledger
committed stored none = []
committed stored (some db) = stored db

pub outputs_total_value :
    (total expected : ℕ) (outputs : List TxOutput)
    → outputs_total total outputs ≡ some expected
    → expected ≡ total + value_of outputs
unfolding outputs_total value_of
outputs_total_value total expected [] e = ground arith
outputs_total_value total expected (o ∷ outputs) e =
    ground (arith, outputs_total_value (total + o.amount) expected outputs)

contains-found :
    (k : Outpoint) (ledger : Ledger)
    → contains k ledger ≡ true
    → (v : Bytes × ℕ) × (find k ledger ≡ some v)
contains-found k ledger h = elim (Option-cases (find k ledger)) [
  | inl missing ↦ ground (arith, h, contains-eq-false k ledger missing)
  | inr found ↦ found
]

spend_all_step :
    (i : TxInput) (inputs : List TxInput) (v : Bytes × ℕ) (ledger : Ledger)
    → find (spent_by i) ledger ≡ some v
    → spend_all (i ∷ inputs) ledger ≡ spend_all inputs (erase (spent_by i) ledger)
unfolding spend_all
spend_all_step i inputs v ledger h = ground (arith, h)

create_all_step :
    (tx_id : Bytes) (index : ℕ) (o : TxOutput) (outputs : List TxOutput) (ledger : Ledger)
    → find (tx_id, index) ledger ≡ none
    → create_all tx_id index (o ∷ outputs) ledger
      ≡ create_all tx_id
          (index + 1)
          outputs
          (insert (tx_id, index) (c_string o.address, o.amount) ledger)
unfolding create_all
create_all_step tx_id index o outputs ledger h = ground (arith, h)

owned_value_add :
    (crypto : Crypto) (i : TxInput) (inputs : List TxInput) (output : Bytes × ℕ) (value : ℕ)
    (ledger : Ledger)
    → find (spent_by i) ledger ≡ some output
    → address_from_public_key crypto i.public_key == output.0 ≡ true
    → owned_value crypto ledger inputs ≡ some value
    → owned_value crypto ledger (i ∷ inputs) ≡ some (output.1 + value)
unfolding owned_value
owned_value_add crypto i inputs output value ledger found owner owned =
    ground (arith, found, owner, owned)

module _ {Db : Type 0} (run : Statement → Db → Reply × Db) (active : Db → Bool)
    (utxos stored : Db → Ledger) (law : IsSqlite run active utxos stored) where
  pub inputs_total-owned :
      (base : Ledger) (crypto : Crypto) (total : ℕ) (inputs : List TxInput) (db : Option Db)
      → InBlock run active utxos stored law base db
      → Kept run active utxos stored law base (inputs_total run crypto total inputs db).1
        × ((sum : ℕ)
            → (inputs_total run crypto total inputs db).0 ≡ some sum
            → InBlock run active utxos stored law base (inputs_total run crypto total inputs db).1
              × (table run active utxos stored law (inputs_total run crypto total inputs db).1
                  ≡ table run active utxos stored law db)
              × (value : ℕ) × (owned_value crypto (table run active utxos stored law db) inputs
                  ≡ some value)
              × (sum ≡ total + value))
  unfolding inputs_total owned_value
  inputs_total-owned base crypto total [] db b = (
    InBlock-Kept run active utxos stored law base db b,
    λ sum e. (b, refl, 0, refl, ground (arith, e)),
  )
  inputs_total-owned base crypto total (i ∷ inputs) db b =
      let r = get_unspent_output run i.prev_tx_hash i.prev_output_idx db in
      let (kept, finds) =
        get_unspent_output-finds run active utxos stored law base i.prev_tx_hash i.prev_output_idx
          db b in
      elim (Option-cases r.0) [
        | inl missing ↦ rw (missing, inputs_total) (kept, λ sum e. cc)
        | inr (o, found) ↦
            (elim (Bool-cases (
              is_empty o.address
              || ((address_from_public_key crypto i.public_key != o.address)
                  || ltb (u64_max - total) o.amount))) [
                    | inl refused ↦ rw (found, refused, inputs_total) (kept, λ sum e. cc)
                    | inr accepted ↦
                        let (still, same, located) = finds o found in
                        let (kept', rest) =
                          inputs_total-owned base crypto (total + o.amount) inputs r.1 still in
                        rw (found, accepted, inputs_total)
                          (
                            kept',
                            λ sum e.
                                let (b', same', value, owned, exact) = rest sum e in
                                (
                                  b',
                                  same' ∙ same,
                                  o.amount + value,
                                  owned_value_add crypto i inputs (o.address, o.amount) value
                                      (table run active utxos stored law db) located
                                      (ground (arith, accepted))
                                      (ap (λ ledger. owned_value crypto ledger inputs) (sym same)
                                        ∙ owned),
                                  omega (arith, exact),
                                ),
                          )
                  ])
      ]

  pub spend_inputs-spends :
      (base : Ledger) (inputs : List TxInput) (db : Option Db)
      → InBlock run active utxos stored law base db
      → Kept run active utxos stored law base (spend_inputs run inputs db).1
        × ((spend_inputs run inputs db).0 ≡ true
            → InBlock run active utxos stored law base (spend_inputs run inputs db).1
              × (spend_all inputs (table run active utxos stored law db)
                  ≡ some (table run active utxos stored law (spend_inputs run inputs db).1)))
  unfolding spend_inputs spend_all
  spend_inputs-spends base [] db b =
      (InBlock-Kept run active utxos stored law base db b, λ e. (b, refl))
  spend_inputs-spends base (i ∷ inputs) db b =
      let r = spend_unspent_output run i.prev_tx_hash i.prev_output_idx db in
      let (kept, spends) =
        spend_unspent_output-spends run active utxos stored law base i.prev_tx_hash
          i.prev_output_idx db b in
      elim (Bool-cases r.0) [
        | inr refused ↦ rw refused (kept, λ e. cc)
        | inl accepted ↦
            let (still, present, erased) = spends accepted in
            let (kept', rest) = spend_inputs-spends base inputs r.1 still in
            let (v, found) =
              contains-found (spent_by i) (table run active utxos stored law db) present in
            rw accepted (
              kept',
              λ e.
                  let (b', spent) = rest e in
                  (
                    b',
                    spend_all_step i inputs v (table run active utxos stored law db) found
                        ∙ ap (λ ledger. spend_all inputs ledger) (sym erased)
                        ∙ spent,
                  ),
            )
      ]

  pub save_outputs-creates :
      (base : Ledger) (tx_id : Bytes) (index : ℕ) (outputs : List TxOutput) (db : Option Db)
      → InBlock run active utxos stored law base db
      → Kept run active utxos stored law base (save_outputs run tx_id index outputs db).1
        × ((save_outputs run tx_id index outputs db).0 ≡ true
            → InBlock run active utxos stored law base (save_outputs run tx_id index outputs db).1
              × (create_all (c_string tx_id) index outputs (table run active utxos stored law db)
                  ≡ some (
                      table run active utxos stored law
                        (save_outputs run tx_id index outputs db).1)))
  unfolding save_outputs create_all
  save_outputs-creates base tx_id index [] db b =
      (InBlock-Kept run active utxos stored law base db b, λ e. (b, refl))
  save_outputs-creates base tx_id index (o ∷ outputs) db b =
      let output : UnspentOutput = record {
        tx_id = tx_id;
        output_index = index;
        address = o.address;
        amount = o.amount;
      } in
      let (kept, creates) =
        save_unspent_output-creates run active utxos stored law base output db b in
      elim (Bool-cases (save_unspent_output run output db).0) [
        | inr refused ↦ rw refused (kept, λ e. cc)
        | inl accepted ↦
            let (still, fresh, made) = creates accepted in
            let (kept', rest) =
              save_outputs-creates base tx_id (index + 1) outputs
                (save_unspent_output run output db).1 still in
            rw accepted (
              kept',
              λ e.
                  let (b', created) = rest e in
                  (
                    b',
                    create_all_step (c_string tx_id) index o outputs
                          (table run active utxos stored law db) fresh
                        ∙ ap (λ ledger. create_all (c_string tx_id) (index + 1) outputs ledger)
                            (sym made)
                        ∙ created,
                  ),
            )
      ]
