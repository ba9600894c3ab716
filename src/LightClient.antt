-- ===== src/LightClient.antt =====
-- `mermai_light_client`: include/mermai/mermai_light_client.hpp and
-- src/core/mermai_light_client.cpp.
pub mod Heights
mod Tests
use mermai_blockchain.Base.{
  ℕ, Bool, true, false, ◌&&◌, ◌||◌, not, Option, none, some, List, [], ◌∷◌, ◌++◌, length, is_empty,
  if◌then◌else◌,
}
use mermai_blockchain.Base.Words.{add32}
use mermai_blockchain.Base.Key.{Bytes, bytes_key, nat_key, ◌==◌}
use mermai_blockchain.Base.Map.{Map, find, insert}
use mermai_blockchain.Crypto.{Crypto, hex_encode}
use mermai_blockchain.Vote.{to_decimal}
use mermai_blockchain.Merkle.{MerkleProof, verify_proof}
use mermai_blockchain.Block.{Block, calculate_hash}

pub record BlockHeader : Type 0 where
  pub height : ℕ
  pub hash : Bytes
  pub prev_block_hash : Bytes
  pub merkle_root : Bytes
  pub timestamp : ℕ
  pub validator_address : Bytes
  pub validator_public_key : Bytes
  pub validator_signature : Bytes

pub record LightClient : Type 0 where
  pub headers : List BlockHeader
  pub headers_by_height : Map ℕ BlockHeader
  pub headers_by_hash : Map Bytes BlockHeader

unfoldable pub new_client : LightClient
new_client = record { headers = []; headers_by_height = []; headers_by_hash = [] }

-- The text that `verify_signature` makes of a header: its fields, joined by ':'.
unfoldable pub header_payload : BlockHeader → Bytes
header_payload h =
    to_decimal h.height
    ++ (b':'
        ∷ (h.prev_block_hash
            ++ (b':'
                ∷ (h.merkle_root
                    ++ (b':' ∷ (to_decimal h.timestamp ++ (b':' ∷ h.validator_address)))))))

-- `mermai_block_header::verify_signature`: a header without a key or a signature passes.
unfoldable pub verify_header_signature : Crypto → BlockHeader → Bool
unfolding header_payload
verify_header_signature crypto h =
    if is_empty h.validator_public_key || is_empty h.validator_signature
    then true
    else crypto.parses_key h.validator_public_key
      && crypto.digest_verify h.validator_public_key (header_payload h) h.validator_signature

-- `headers.back()`
unfoldable pub tip : List BlockHeader → Option BlockHeader
tip [] = none
tip (h ∷ headers) = elim (tip headers) [ none ↦ some h | some last ↦ some last ]

-- The test of the height; an empty client takes any.
unfoldable pub continues_tip : ℕ → List BlockHeader → Bool
unfolding tip
continues_tip height headers = elim (tip headers) [
  | none ↦ true
  | some last ↦ height == add32 last.height 1
]

unfoldable pub sync_header : Crypto → BlockHeader → LightClient → LightClient × Bool
unfolding continues_tip verify_header_signature
sync_header crypto h c =
    if not (continues_tip h.height c.headers)
    then (c, false)
    else if not (verify_header_signature crypto h)
    then (c, false)
    else (
      record {
        headers = c.headers ++ (h ∷ []);
        headers_by_height = insert h.height h c.headers_by_height;
        headers_by_hash =
            if is_empty h.hash then c.headers_by_hash else insert h.hash h c.headers_by_hash;
      },
      true,
    )

unfoldable pub header_of : Crypto → Block → BlockHeader
header_of crypto b = record {
  height = b.height;
  hash = hex_encode (calculate_hash crypto b);
  prev_block_hash = b.prev_block_hash;
  merkle_root = b.merkle_root;
  timestamp = b.timestamp;
  validator_address = b.validator_address;
  validator_public_key = b.validator_public_key;
  validator_signature = b.validator_signature;
}

unfoldable pub sync_header_from_block : Crypto → Block → LightClient → LightClient × Bool
unfolding header_of sync_header
sync_header_from_block crypto b c = sync_header crypto (header_of crypto b) c

unfoldable pub get_header : ℕ → LightClient → Option BlockHeader
get_header height c = find height c.headers_by_height

unfoldable pub verify_transaction_inclusion : Crypto → ℕ → Bytes → MerkleProof → LightClient → Bool
verify_transaction_inclusion crypto block_height tx_hash proof c =
    elim (find block_height c.headers_by_height) [
      | none ↦ false
      | some header ↦ verify_proof crypto header.merkle_root tx_hash proof
    ]

unfoldable pub get_latest_height : LightClient → ℕ
unfolding tip
get_latest_height c = elim (tip c.headers) [ none ↦ 0 | some last ↦ last.height ]

unfoldable pub get_header_count : LightClient → ℕ
get_header_count c = length c.headers

-- The headers offered to a client, one after the other.
unfoldable pub sync_all : Crypto → LightClient → List BlockHeader → LightClient
unfolding sync_header
sync_all crypto c [] = c
sync_all crypto c (h ∷ headers) = sync_all crypto (sync_header crypto h c).0 headers
