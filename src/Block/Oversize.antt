-- ===== src/Block/Oversize.antt =====
-- A block with a large transaction cannot be read back: `serialize` writes each transaction as a
-- string of any length, and `deserialize` refuses a string of more than 65536 bytes.
use mermai_blockchain.Base.{◌<◌, ◌≡◌, List, ◌∷◌, ◌++◌, arith, length, All, append_assoc}
use mermai_blockchain.Base.Words.{IsU32}
use mermai_blockchain.Base.Key.{Bytes}
use mermai_blockchain.Wire.{
  err, max_serialized_string, max_block_transactions, invalid_string_payload_size,
}
use mermai_blockchain.Wire.Values.{
  read_u32-write, read_u64-write, read_bytes-write, read_string-write, read_string-oversize,
  read_items-bad, small_size, count_passes,
}
use mermai_blockchain.Transaction.{Transaction, serialize_transaction}
use mermai_blockchain.Block.{
  Block, write_transaction, read_transaction, serialize_block, deserialize_block,
}
use mermai_blockchain.Block.RoundTrip.{IsEncodableEntry, IsEncodableHeader, read_transaction-write}

module _ (big : Transaction) (large : max_serialized_string < length (serialize_transaction big))
    (small : IsU32 (length (serialize_transaction big))) where
  read_transaction-oversize :
      (rest : Bytes)
      → read_transaction (write_transaction big ++ rest) ≡ err invalid_string_payload_size
  unfolding read_transaction write_transaction
  read_transaction-oversize rest =
      rw (read_string-oversize (serialize_transaction big) rest large small)

  -- However valid the rest of the block is, one transaction whose binary form is longer than 65536
  -- bytes makes the block's own binary form unreadable.
  pub deserialize_block-oversize :
      (b : Block) (before after : List Transaction) (rest : Bytes)
      → b.transactions ≡ before ++ (big ∷ after)
      → IsEncodableHeader b
      → All IsEncodableEntry before
      → deserialize_block (serialize_block b ++ rest) ≡ err invalid_string_payload_size
  unfolding deserialize_block serialize_block
  deserialize_block-oversize b before after rest e h entries =
      simp
        (
          append_assoc,
          read_u32-write b.version _ h.version_range,
          read_u32-write b.height _ h.height_range,
          read_string-write b.prev_block_hash _ h.prev_block_hash_size,
          read_string-write b.merkle_root _ h.merkle_root_size,
          read_u64-write b.timestamp _ h.timestamp_range,
          read_u32-write b.nonce _ h.nonce_range,
          read_string-write b.validator_address _ h.validator_address_size,
          read_u64-write b.validator_stake _ h.validator_stake_range,
          read_u64-write b.validator_age _ h.validator_age_range,
          read_bytes-write b.validator_public_key _ h.validator_public_key_size,
          read_bytes-write b.validator_signature _ h.validator_signature_size,
          small_size (length b.transactions) (omega (arith, h.transaction_count)),
          read_u32-write (length b.transactions) _ (omega (arith, h.transaction_count)),
          count_passes max_block_transactions (length b.transactions) _ _ h.transaction_count,
        )
        (rw (
          e,
          read_items-bad IsEncodableEntry write_transaction read_transaction read_transaction-write
              big invalid_string_payload_size read_transaction-oversize before after rest entries,
        ))
