-- ===== src/Vote/RoundTrip.antt =====
-- A vote is read back from its binary form, and a signed vote is accepted.
use mermai_blockchain.Base.{◌≤◌, ◌≡◌, ◌⊎◌, ◌≢◌, true, some, [], ◌++◌, arith, length, append_assoc}
use mermai_blockchain.Base.Words.{IsU32, IsU64}
use mermai_blockchain.Base.Key.{Bytes}
use mermai_blockchain.Crypto.{Crypto}
use mermai_blockchain.Wire.{ok, max_serialized_bytes, max_serialized_string}
use mermai_blockchain.Wire.Values.{
  read_u32-write, read_u64-write, read_bytes-write, read_string-write,
}
use mermai_blockchain.Vote.{
  BlockVote, serialize_vote, deserialize_vote, vote_signing_payload, sign_vote,
  verify_vote_signature,
}

pub record IsEncodableVote (v : BlockVote) : Type 0 where
  pub validator_address_size : length v.validator_address ≤ max_serialized_string
  pub block_hash_size : length v.block_hash ≤ max_serialized_string
  pub block_height_range : IsU32 v.block_height
  pub timestamp_range : IsU64 v.timestamp
  pub validator_public_key_size : length v.validator_public_key ≤ max_serialized_bytes
  pub signature_size : length v.signature ≤ max_serialized_bytes

-- Deserialising the binary form of an encodable vote gives the vote back, whatever bytes follow
-- it: unlike a transaction or a block, a vote with trailing bytes is accepted.
pub deserialize-serialize_vote :
    (v : BlockVote) (rest : Bytes)
    → IsEncodableVote v
    → deserialize_vote (serialize_vote v ++ rest) ≡ ok v
unfolding deserialize_vote serialize_vote
deserialize-serialize_vote v rest h = simp (
  append_assoc,
  read_string-write v.validator_address _ h.validator_address_size,
  read_string-write v.block_hash _ h.block_hash_size,
  read_u32-write v.block_height _ h.block_height_range,
  read_u64-write v.timestamp _ h.timestamp_range,
  read_bytes-write v.validator_public_key _ h.validator_public_key_size,
  read_bytes-write v.signature _ h.signature_size,
)

-- A vote that is signed with a private key whose public part stands in the vote, or is put there,
-- passes the signature check, if the key parses, signing succeeds with a signature that is not
-- empty, and verification by the public key accepts every signature that the private key makes.
verify-sign_vote :
    (crypto : Crypto) (v : BlockVote) (private_key public_key signature : Bytes)
    → crypto.public_key_of private_key ≡ some public_key
    → public_key ≢ []
    → (v.validator_public_key ≡ []) ⊎ (v.validator_public_key ≡ public_key)
    → crypto.parses_key public_key ≡ true
    → ((payload made : Bytes)
        → crypto.digest_sign private_key payload ≡ some made
        → crypto.digest_verify public_key payload made ≡ true)
    → crypto.digest_sign private_key (vote_signing_payload v) ≡ some signature
    → signature ≢ []
    → ((sign_vote crypto (some private_key) v).1 ≡ true)
      × (verify_vote_signature crypto (sign_vote crypto (some private_key) v).0 ≡ true)
unfolding sign_vote verify_vote_signature vote_signing_payload
verify-sign_vote crypto v private_key public_key signature pk nonempty known parses correct s sne =
    ground (arith, correct (vote_signing_payload v) signature)
