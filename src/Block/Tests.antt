-- ===== src/Block/Tests.antt =====
-- Theorems on transactions, votes and blocks at concrete inputs.
use mermai_blockchain.Base.{
  ◌<◌, ◌≡◌, refl, true, some, List, [], ◌∷◌, ◌++◌, arith, length, replicate, length-replicate,
  length-append,
}
use mermai_blockchain.Base.Words.{IsU32}
use mermai_blockchain.Base.Key.{Bytes, bytes_beq}
use mermai_blockchain.Crypto.Sample.{sample_crypto, sample_signature}
use mermai_blockchain.Wire.{
  ok, err, write_value, write_string, write_bytes, write_items, max_serialized_string,
  invalid_string_payload_size, trailing_transaction_data,
}
use mermai_blockchain.Wire.Values.{length-write_value}
use mermai_blockchain.Transaction.{
  TxInput, Transaction, serialize_transaction, deserialize_transaction, write_input, write_output,
}
use mermai_blockchain.Transaction.RoundTrip.{deserialize-serialize_transaction}
use mermai_blockchain.Transaction.Verify.{
  unsigned_transaction_payload, verify_transaction, sign_transaction,
}
use mermai_blockchain.Transaction.Verify.Accepted.{IsValidTransaction, verify_transaction_iff}
use mermai_blockchain.Transaction.Verify.Signing.{sign-unsigned_transaction_payload}
use mermai_blockchain.Vote.{BlockVote, serialize_vote, deserialize_vote}
use mermai_blockchain.Vote.RoundTrip.{deserialize-serialize_vote}
use mermai_blockchain.Block.{Block, serialize_block, deserialize_block}
use mermai_blockchain.Block.RoundTrip.{deserialize-serialize_block}
use mermai_blockchain.Block.Oversize.{deserialize_block-oversize}

abbrev first_input : TxInput
first_input = record {
  prev_tx_hash = 170 ∷ [];
  prev_output_idx = 0;
  signature = [];
  public_key = 5 ∷ [];
}

abbrev second_input : TxInput
second_input = record {
  prev_tx_hash = 170 ∷ [];
  prev_output_idx = 1;
  signature = [];
  public_key = 6 ∷ [];
}

abbrev payment : Transaction
payment = record {
  id = 1 ∷ [];
  inputs = first_input ∷ second_input ∷ [];
  outputs = record { address = 97 ∷ []; amount = 70 } ∷ [];
  fee = 2;
  timestamp = 100;
}

deserialize-serialize_transaction_example :
    deserialize_transaction (serialize_transaction payment ++ (9 ∷ []))
    ≡ err trailing_transaction_data
deserialize-serialize_transaction_example =
    deserialize-serialize_transaction payment (9 ∷ []) (omega arith)

abbrev payment_signature : Bytes
payment_signature = sample_signature (5 ∷ []) (unsigned_transaction_payload payment)

sign-unsigned_transaction_payload_example :
    unsigned_transaction_payload (sign_transaction sample_crypto 0 (some (5 ∷ [])) payment).0
    ≡ unsigned_transaction_payload payment
sign-unsigned_transaction_payload_example =
    (sign-unsigned_transaction_payload sample_crypto 0 (5 ∷ []) payment_signature payment
      first_input refl (λ e. cc) 1 (omega arith) refl).1

abbrev signed_payment : Transaction
signed_payment =
    (sign_transaction sample_crypto 1 (some (6 ∷ []))
      (sign_transaction sample_crypto 0 (some (5 ∷ [])) payment).0).0

signed_payment_verifies : verify_transaction sample_crypto 50 signed_payment ≡ true
unfolding verify_transaction sign_transaction unsigned_transaction_payload serialize_transaction
    write_input write_output write_items write_string write_bytes write_value bytes_beq
signed_payment_verifies = refl

verify_transaction_iff_example : IsValidTransaction sample_crypto 50 signed_payment
verify_transaction_iff_example =
    (verify_transaction_iff sample_crypto 50 signed_payment).0 signed_payment_verifies

abbrev vote : BlockVote
vote = record {
  validator_address = 97 ∷ [];
  block_hash = 170 ∷ 187 ∷ [];
  block_height = 12;
  timestamp = 1640000010;
  validator_public_key = [];
  signature = [];
}

deserialize-serialize_vote_example :
    deserialize_vote (serialize_vote vote ++ (1 ∷ 2 ∷ [])) ≡ ok vote
deserialize-serialize_vote_example = deserialize-serialize_vote vote (1 ∷ 2 ∷ []) (omega arith)

abbrev block : List Transaction → Block
block transactions = record {
  version = 1;
  height = 1;
  prev_block_hash = 48 ∷ 48 ∷ [];
  merkle_root = 49 ∷ [];
  timestamp = 1640000010;
  nonce = 0;
  validator_address = 97 ∷ [];
  validator_stake = 1000000;
  validator_age = 0;
  validator_public_key = [];
  validator_signature = [];
  transactions = transactions;
}

deserialize-serialize_block_example :
    deserialize_block (serialize_block (block (payment ∷ [])) ++ []) ≡ ok (block (payment ∷ []))
unfolding serialize_transaction write_input write_output write_items write_string write_bytes
    write_value
deserialize-serialize_block_example =
    deserialize-serialize_block (block (payment ∷ [])) [] (omega arith) (omega arith)

-- A transaction whose id alone takes 65536 bytes.
abbrev big : Transaction
big = record {
  id = replicate max_serialized_string b'a';
  inputs = [];
  outputs = [];
  fee = 0;
  timestamp = 0;
}

length-big : length (serialize_transaction big) ≡ 65564
unfolding serialize_transaction write_items write_string
length-big = simp (length-append, length-write_value, length-replicate)

big_large : max_serialized_string < length (serialize_transaction big)
big_large = omega (arith, length-big)

big_small : IsU32 (length (serialize_transaction big))
big_small = omega (arith, length-big)

deserialize_block-oversize_example :
    deserialize_block (serialize_block (block (big ∷ [])) ++ []) ≡ err invalid_string_payload_size
deserialize_block-oversize_example =
    deserialize_block-oversize big big_large big_small (block (big ∷ [])) [] [] [] refl
      (omega arith) tt
