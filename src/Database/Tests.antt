-- ===== src/Database/Tests.antt =====
-- A block on a small database: an output is spent, two are made.
use mermai_blockchain.Base.{◌+◌, ◌≡◌, ◌⊎◌, refl, true, false, some, [], ◌∷◌}
use mermai_blockchain.Base.Key.{Bytes}
use mermai_blockchain.Crypto.Sample.{sample_crypto, sample_signature}
use mermai_blockchain.Transaction.{Transaction}
use mermai_blockchain.Transaction.Verify.{unsigned_transaction_payload}
use mermai_blockchain.Block.{Block, new_block}
use mermai_blockchain.Database.Store.{address_from_public_key, apply_block}
use mermai_blockchain.Database.Sample.{
  SampleDb, sample_run, seen, sample_run-IsSqlite, sample_run-EndsNoTransaction,
}
use mermai_blockchain.Database.Ledger.{settle_all}
use mermai_blockchain.Database.Ledger.Conservation.{total_value, created, fees}
use mermai_blockchain.Database.Ledger.Refinement.{committed}
use mermai_blockchain.Database.Ledger.Refinement.Blocks.{apply_block-refines, apply_block_value}
use mermai_blockchain.Database.{is_done, c_string, integer_at, rows_of, text_at}
use mermai_blockchain.Database.Store.{
  execute, apply_changes, apply_transactions, apply_inputs, validate_transaction_inputs,
  changed_one, get_unspent_output, id_of, inputs_total, output_of_row, outputs_total,
  remove_from_mempool, save_block, save_outputs, save_transaction, save_transactions,
  save_unspent_output, spend_inputs, spend_unspent_output,
}
use mermai_blockchain.Transaction.Verify.{
  verify_transaction, distinct_spends, valid_outputs, valid_signatures,
}
use mermai_blockchain.Base.Key.{bytes_beq, bytes_less}
use mermai_blockchain.Transaction.{
  serialize_transaction, write_input, write_output, transaction_hash,
}
use mermai_blockchain.Wire.{write_string, write_value, write_items, write_bytes}
use mermai_blockchain.Base.Map.{assign, contains, erase, find, insert, insert_new}
use mermai_blockchain.Base.Set.{member}
use mermai_blockchain.Block.{calculate_hash, serialize_block, write_transaction}
use mermai_blockchain.Crypto.{hex_encode}
use mermai_blockchain.Database.Sample.{write}

abbrev owner_key : Bytes
owner_key = 9 ∷ []

abbrev unsigned : Transaction
unsigned = record {
  id = 6 ∷ [];
  inputs =
      record { prev_tx_hash = 5 ∷ []; prev_output_idx = 0; signature = []; public_key = owner_key }
      ∷ [];
  outputs = record { address = 7 ∷ []; amount = 8 } ∷ [];
  fee = 2;
  timestamp = 0;
}

abbrev payment : Transaction
payment = record unsigned {
  inputs =
      record {
        prev_tx_hash = 5 ∷ [];
        prev_output_idx = 0;
        signature = sample_signature owner_key (unsigned_transaction_payload unsigned);
        public_key = owner_key;
      }
      ∷ [];
}

abbrev reward : Transaction
reward = record {
  id = 8 ∷ [];
  inputs = [];
  outputs = record { address = 7 ∷ []; amount = 50 } ∷ [];
  fee = 0;
  timestamp = 0;
}

abbrev paying_block : Block
paying_block = record (new_block 0 1) { transactions = payment ∷ reward ∷ [] }

abbrev start : SampleDb
start = record {
  active = false;
  stored = ((5 ∷ [], 0), (address_from_public_key sample_crypto owner_key, 10)) ∷ [];
  working = [];
}

paying_block-accepted :
    (apply_block sample_run sample_crypto 100 paying_block (some start)).0 ≡ true
unfolding apply_block address_from_public_key sample_run seen unsigned_transaction_payload is_done
    execute apply_changes apply_transactions apply_inputs validate_transaction_inputs
    verify_transaction bytes_beq serialize_transaction write_string write_value write_items
    write_input write_bytes write_output bytes_less assign contains erase find insert insert_new
    member calculate_hash serialize_block write_transaction hex_encode write changed_one
    get_unspent_output id_of inputs_total output_of_row outputs_total remove_from_mempool save_block
    save_outputs save_transaction save_transactions save_unspent_output spend_inputs
    spend_unspent_output c_string integer_at rows_of text_at distinct_spends valid_outputs
    valid_signatures transaction_hash
paying_block-accepted = refl

apply_block-refines_example :
    ((apply_block sample_run sample_crypto 100 paying_block (some start)).0 ≡ true)
      × (settle_all sample_crypto 100 paying_block.transactions start.stored
          ≡ some (
              committed
                (λ db. db.stored)
                (apply_block sample_run sample_crypto 100 paying_block (some start)).1))
    ⊎ ((apply_block sample_run sample_crypto 100 paying_block (some start)).0 ≡ false)
      × (committed
            (λ db. db.stored)
            (apply_block sample_run sample_crypto 100 paying_block (some start)).1
          ≡ start.stored)
apply_block-refines_example =
    apply_block-refines sample_run (λ db. db.active) seen (λ db. db.stored) sample_run-IsSqlite
      sample_crypto 100 paying_block (some start) sample_run-EndsNoTransaction

apply_block_value_example :
    total_value (
        committed
          (λ db. db.stored)
          (apply_block sample_run sample_crypto 100 paying_block (some start)).1)
      + fees (payment ∷ reward ∷ [])
    ≡ total_value start.stored + created (payment ∷ reward ∷ [])
unfolding new_block
apply_block_value_example =
    apply_block_value sample_run (λ db. db.active) seen (λ db. db.stored) sample_run-IsSqlite
      sample_crypto 100 paying_block (some start) (tt, tt) paying_block-accepted
