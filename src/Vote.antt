-- ===== src/Vote.antt =====
-- `mermai_block_vote`: its binary form, signing payload, signing and signature check, in
-- include/mermai/mermai_blockchain.hpp and src/core/mermai_blockchain.cpp.
pub mod RoundTrip
use mermai_blockchain.Base.{
  ℕ, zero, suc, ◌+◌, ◌/◌, ◌%◌, Bool, true, false, ◌&&◌, ◌||◌, Option, none, some, List, [], ◌∷◌,
  ◌++◌, ltb, is_empty, if◌then◌else◌,
}
use mermai_blockchain.Base.Key.{Bytes}
use mermai_blockchain.Crypto.{Crypto}
use mermai_blockchain.Wire.{
  Result, ok, err, ◌>>=◌, write_u32, write_u64, read_u32, read_u64, write_bytes, read_bytes,
  write_string, read_string,
}

pub record BlockVote : Type 0 where
  pub validator_address : Bytes
  pub block_hash : Bytes
  pub block_height : ℕ
  pub timestamp : ℕ
  pub validator_public_key : Bytes
  pub signature : Bytes

-- `mermai_block_vote::serialize`
unfoldable pub serialize_vote : BlockVote → Bytes
serialize_vote v =
    write_string v.validator_address
    ++ (write_string v.block_hash
        ++ (write_u32 v.block_height
            ++ (write_u64 v.timestamp
                ++ (write_bytes v.validator_public_key ++ write_bytes v.signature))))

-- `mermai_block_vote::deserialize`, which does not look at what follows the vote.
unfoldable pub deserialize_vote : Bytes → Result BlockVote
deserialize_vote input = do
  (validator_address, s1) ← read_string input
  (block_hash, s2) ← read_string s1
  (block_height, s3) ← read_u32 s2
  (timestamp, s4) ← read_u64 s3
  (validator_public_key, s5) ← read_bytes s4
  (signature, s6) ← read_bytes s5
  ok (record {
    validator_address = validator_address;
    block_hash = block_hash;
    block_height = block_height;
    timestamp = timestamp;
    validator_public_key = validator_public_key;
    signature = signature;
  })

-- `std::to_string` of an unsigned integer; the fuel is a bound on the number of digits.
decimal_digits : ℕ → ℕ → Bytes → Bytes
decimal_digits zero n tail = tail
decimal_digits (suc fuel) n tail =
    let more = decimal_digits fuel (n / 10) ((b'0' + n % 10) ∷ tail) in
    if ltb n 10 then (b'0' + n) ∷ tail else more

-- A 64-bit number has at most 20 digits.
unfoldable pub to_decimal : ℕ → Bytes
unfolding decimal_digits
to_decimal n = decimal_digits 20 n []

-- `mermai_block_vote::signing_payload`: the fields, joined by ':'.
unfoldable pub vote_signing_payload : BlockVote → Bytes
unfolding to_decimal
vote_signing_payload v =
    v.validator_address
    ++ (b':'
        ∷ (v.block_hash ++ (b':' ∷ (to_decimal v.block_height ++ (b':' ∷ to_decimal v.timestamp)))))

-- `mermai_block_vote::verify_signature`
unfoldable pub verify_vote_signature : Crypto → BlockVote → Bool
verify_vote_signature crypto v =
    if is_empty v.validator_public_key || is_empty v.signature
    then false
    else crypto.parses_key v.validator_public_key
      && crypto.digest_verify v.validator_public_key (vote_signing_payload v) v.signature

-- `mermai_block_vote::sign`. No private key is the null pointer.
unfoldable pub sign_vote : Crypto → Option Bytes → BlockVote → BlockVote × Bool
sign_vote crypto none v = (v, false)
sign_vote crypto (some private_key) v =
    let keyed =
      if is_empty v.validator_public_key
      then (elim (crypto.public_key_of private_key) [
        | none ↦ v
        | some public_key ↦ record v { validator_public_key = public_key }
      ])
      else v in
    let unsigned = record keyed { signature = [] } in
    elim (crypto.digest_sign private_key (vote_signing_payload unsigned)) [
      | none ↦ (unsigned, false)
      | some signature ↦ (record unsigned { signature = signature }, true)
    ]
