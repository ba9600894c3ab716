-- ===== src/Block/RoundTrip.antt =====
-- A block within the format's limits is read back from its binary form.
use mermai_blockchain.Base.{
  ◌≤◌, ◌≡◌, subst, [], ◌++◌, arith, length, is_empty, if◌then◌else◌, All, append_assoc, append-nil,
}
use mermai_blockchain.Base.Words.{IsU32, IsU64}
use mermai_blockchain.Base.Key.{Bytes}
use mermai_blockchain.Wire.{
  ok, err, max_serialized_bytes, max_serialized_string, max_block_transactions, trailing_block_data,
}
use mermai_blockchain.Wire.Values.{
  read_u32-write, read_u64-write, read_bytes-write, read_string-write, read_items-write, small_size,
  count_passes,
}
use mermai_blockchain.Transaction.{Transaction, serialize_transaction, deserialize_transaction}
use mermai_blockchain.Transaction.RoundTrip.{IsEncodable, deserialize-serialize_transaction}
use mermai_blockchain.Block.{
  Block, write_transaction, read_transaction, serialize_block, deserialize_block,
}

-- The transaction is encodable, and its binary form is no longer than a string may be.
abbrev pub IsEncodableEntry : Transaction → Type 0
IsEncodableEntry tx = IsEncodable tx × (length (serialize_transaction tx) ≤ max_serialized_string)

-- The limits on everything but the transactions.
pub record IsEncodableHeader (b : Block) : Type 0 where
  pub version_range : IsU32 b.version
  pub height_range : IsU32 b.height
  pub prev_block_hash_size : length b.prev_block_hash ≤ max_serialized_string
  pub merkle_root_size : length b.merkle_root ≤ max_serialized_string
  pub timestamp_range : IsU64 b.timestamp
  pub nonce_range : IsU32 b.nonce
  pub validator_address_size : length b.validator_address ≤ max_serialized_string
  pub validator_stake_range : IsU64 b.validator_stake
  pub validator_age_range : IsU64 b.validator_age
  pub validator_public_key_size : length b.validator_public_key ≤ max_serialized_bytes
  pub validator_signature_size : length b.validator_signature ≤ max_serialized_bytes
  pub transaction_count : length b.transactions ≤ max_block_transactions

deserialize-serialize_entry :
    (tx : Transaction) → IsEncodable tx → deserialize_transaction (serialize_transaction tx) ≡ ok tx
deserialize-serialize_entry tx h =
    subst (λ text. deserialize_transaction text ≡ ok tx) (append-nil (serialize_transaction tx))
      (deserialize-serialize_transaction tx [] h)

pub read_transaction-write :
    (tx : Transaction) (rest : Bytes)
    → IsEncodableEntry tx
    → read_transaction (write_transaction tx ++ rest) ≡ ok (tx, rest)
unfolding read_transaction write_transaction
read_transaction-write tx rest h =
    rw (read_string-write (serialize_transaction tx) rest h.1, deserialize-serialize_entry tx h.0)

-- Deserialising the binary form of an encodable block gives it back; bytes after it are refused
-- as trailing data.
pub deserialize-serialize_block :
    (b : Block) (rest : Bytes)
    → IsEncodableHeader b
    → All IsEncodableEntry b.transactions
    → deserialize_block (serialize_block b ++ rest)
      ≡ (if is_empty rest then ok b else err trailing_block_data)
unfolding deserialize_block serialize_block
deserialize-serialize_block b rest h entries =
    simp
      (
        append_assoc,
        read_u32-write b.version _ h.version_range,
        read_u32-write b.height _ h.height_range,
        read_string-write b.prev_block_hash _ h.prev_block_hash_size,
        read_string-write b.merkle_root _ h.merkle_root_size,
        read_u64-write b.timestamp _ h.timestamp_range,
        read_u32-write b.nonce _ h.nonce_range,
        read_string-write b.validator_address _ h.validator_address_size,
        read_u64-write b.validator_stake _ h.validator_stake_range,
        read_u64-write b.validator_age _ h.validator_age_range,
        read_bytes-write b.validator_public_key _ h.validator_public_key_size,
        read_bytes-write b.validator_signature _ h.validator_signature_size,
        small_size (length b.transactions) (omega (arith, h.transaction_count)),
        read_u32-write (length b.transactions) _ (omega (arith, h.transaction_count)),
        count_passes max_block_transactions (length b.transactions) _ _ h.transaction_count,
        read_items-write IsEncodableEntry write_transaction read_transaction read_transaction-write
            b.transactions _ entries,
      )
      (ground arith)
