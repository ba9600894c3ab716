-- ===== src/Block.antt =====
-- `mermai_block`: its binary form, hash, signing payload and signature, in
-- include/mermai/mermai_blockchain.hpp and src/core/mermai_blockchain.cpp.
pub mod RoundTrip
pub mod Oversize
mod Tests
use mermai_blockchain.Base.{
  ℕ, ◌%◌, ◌≤◌, Bool, true, false, ◌&&◌, ◌||◌, not, Option, none, some, List, [], ◌∷◌, ◌++◌, ltb,
  leb, length, is_empty, if◌then◌else◌,
}
use mermai_blockchain.Base.Words.{u32_mod}
use mermai_blockchain.Base.Key.{Bytes, bytes_key, ◌==◌}
use mermai_blockchain.Crypto.{Crypto}
use mermai_blockchain.Wire.{
  Result, ok, err, ◌>>=◌, ◌>>◌, throw_if, Reader, write_u32, write_u64, read_u32, read_u64,
  write_bytes, read_bytes, write_string, read_string, write_items, read_items,
  too_many_block_transactions, trailing_block_data, max_block_transactions,
}
use mermai_blockchain.Transaction.{Transaction, serialize_transaction, deserialize_transaction}

pub record Block : Type 0 where
  pub version : ℕ
  pub height : ℕ
  pub prev_block_hash : Bytes
  pub merkle_root : Bytes
  pub timestamp : ℕ
  pub nonce : ℕ
  pub validator_address : Bytes
  pub validator_stake : ℕ
  pub validator_age : ℕ
  pub validator_public_key : Bytes
  pub validator_signature : Bytes
  pub transactions : List Transaction

-- `mermai_block::mermai_block(uint32_t)`, at the time `now`; the default height is 0.
unfoldable pub new_block : ℕ → ℕ → Block
new_block now block_height = record {
  version = 1;
  height = block_height;
  prev_block_hash = [];
  merkle_root = [];
  timestamp = now;
  nonce = 0;
  validator_address = [];
  validator_stake = 0;
  validator_age = 0;
  validator_public_key = [];
  validator_signature = [];
  transactions = [];
}

unfoldable pub write_transaction : Transaction → Bytes
write_transaction tx = write_string (serialize_transaction tx)

unfoldable pub read_transaction : Reader Transaction
read_transaction input = do
  (text, rest) ← read_string input
  tx ← deserialize_transaction text
  ok (tx, rest)

-- `mermai_block::serialize`
unfoldable pub serialize_block : Block → Bytes
serialize_block b =
    write_u32 b.version
    ++ (write_u32 b.height
        ++ (write_string b.prev_block_hash
            ++ (write_string b.merkle_root
                ++ (write_u64 b.timestamp
                    ++ (write_u32 b.nonce
                        ++ (write_string b.validator_address
                            ++ (write_u64 b.validator_stake
                                ++ (write_u64 b.validator_age
                                    ++ (write_bytes b.validator_public_key
                                        ++ (write_bytes b.validator_signature
                                            ++ (write_u32 (length b.transactions % u32_mod)
                                                ++ write_items write_transaction
                                                    b.transactions)))))))))))

-- `mermai_block::deserialize`
unfoldable pub deserialize_block : Bytes → Result Block
deserialize_block input = do
  (version, s1) ← read_u32 input
  (height, s2) ← read_u32 s1
  (prev_block_hash, s3) ← read_string s2
  (merkle_root, s4) ← read_string s3
  (timestamp, s5) ← read_u64 s4
  (nonce, s6) ← read_u32 s5
  (validator_address, s7) ← read_string s6
  (validator_stake, s8) ← read_u64 s7
  (validator_age, s9) ← read_u64 s8
  (validator_public_key, s10) ← read_bytes s9
  (validator_signature, s11) ← read_bytes s10
  (transaction_count, s12) ← read_u32 s11
  throw_if (ltb max_block_transactions transaction_count) too_many_block_transactions
  (transactions, s13) ← read_items transaction_count read_transaction s12
  throw_if (not (is_empty s13)) trailing_block_data
  ok (record {
    version = version;
    height = height;
    prev_block_hash = prev_block_hash;
    merkle_root = merkle_root;
    timestamp = timestamp;
    nonce = nonce;
    validator_address = validator_address;
    validator_stake = validator_stake;
    validator_age = validator_age;
    validator_public_key = validator_public_key;
    validator_signature = validator_signature;
    transactions = transactions;
  })

-- `mermai_block::signing_payload`
unfoldable pub block_signing_payload : Block → Bytes
block_signing_payload b = serialize_block (record b { validator_signature = [] })

-- `mermai_block::sign`. No private key is the null pointer.
unfoldable pub sign_block : Crypto → Option Bytes → Block → Block × Bool
sign_block crypto none b = (b, false)
sign_block crypto (some private_key) b =
    let keyed =
      if is_empty b.validator_public_key
      then (elim (crypto.public_key_of private_key) [
        | none ↦ b
        | some public_key ↦ record b { validator_public_key = public_key }
      ])
      else b in
    let unsigned = record keyed { validator_signature = [] } in
    elim (crypto.digest_sign private_key (block_signing_payload unsigned)) [
      | none ↦ (unsigned, false)
      | some signature ↦ (record unsigned { validator_signature = signature }, true)
    ]

-- `mermai_block::verify_validator_signature`
unfoldable pub verify_validator_signature : Crypto → Block → Bool
verify_validator_signature crypto b =
    if is_empty b.validator_public_key || is_empty b.validator_signature
    then false
    else if not (crypto.parses_whole_key b.validator_public_key)
    then false
    else crypto.digest_verify b.validator_public_key (block_signing_payload b) b.validator_signature

-- `mermai_block::calculate_hash`
unfoldable pub calculate_hash : Crypto → Block → Bytes
calculate_hash crypto b = crypto.sha256 (serialize_block b)

-- `mermai_block::verify_time_weight_pos`
unfoldable pub verify_time_weight_pos : Block → Bool
verify_time_weight_pos b = not (is_empty b.validator_address) && ltb 0 b.validator_stake

-- `mermai_block::is_valid_proposer`
unfoldable pub is_valid_proposer : Bytes → ℕ → ℕ → Block → Bool
is_valid_proposer address stake_amount stake_age_seconds b =
    b.validator_address == address
    && (leb stake_amount b.validator_stake && leb stake_age_seconds b.validator_age)
