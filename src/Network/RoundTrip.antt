-- ===== src/Network/RoundTrip.antt =====
-- A message and the blocks in it are read back as they were written.
use mermai_blockchain.Base.{
  ℕ, ◌%◌, ◌≤◌, ◌<◌, ◌≡◌, refl, subst, true, false, if◌then◌else◌, Bool-cases, inl, inr, some, List,
  [], ◌∷◌, ◌++◌, arith, append_assoc, append-nil, ltb, leb, length, length-append, take, All,
  take-append_self, drop-append_self,
}
use mermai_blockchain.Base.Words.{u32_mod, IsU32}
use mermai_blockchain.Base.Key.{Bytes, nat_key, ◌==◌}
use mermai_blockchain.Wire.{ok, write_value, write_u32, write_string, write_items}
use mermai_blockchain.Block.{Block, serialize_block, deserialize_block}
use mermai_blockchain.Block.RoundTrip.{
  IsEncodableHeader, IsEncodableEntry, deserialize-serialize_block,
}
use mermai_blockchain.Network.{
  max_chain_blocks_per_message, max_serialized_block_size, u32_of, write_block,
  encode_chain_payload, read_size, decode_blocks, decode_chain_payload, max_p2p_message_size,
  P2pMessage, serialize_message, untyped, message, deserialize_message,
}

-- A block that the binary form holds and that is no larger than a message allows.
pub record IsSendable (b : Block) : Type 0 where
  pub header : IsEncodableHeader b
  pub entries : All IsEncodableEntry b.transactions
  pub size : length (serialize_block b) ≤ max_serialized_block_size

read_size-write :
    (v : ℕ) (rest : Bytes) → IsU32 v → read_size (write_u32 v ++ rest) ≡ some (v, rest)
unfolding read_size write_value u32_of
read_size-write v rest h = ground arith

length-serialize_block : (b : Block) → 0 < length (serialize_block b)
unfolding serialize_block write_value
length-serialize_block b = omega arith

deserialize_self : (b : Block) → IsSendable b → deserialize_block (serialize_block b) ≡ ok b
deserialize_self b h =
    subst (λ text. deserialize_block text ≡ ok b) (append-nil (serialize_block b))
      (deserialize-serialize_block b [] h.header h.entries)

decode_blocks-write :
    (blocks : List Block)
    → All IsSendable blocks
    → decode_blocks (length blocks) (write_items write_block blocks) ≡ some blocks
unfolding decode_blocks write_items write_block write_string
decode_blocks-write [] h = refl
decode_blocks-write (b ∷ blocks) h =
    let text = serialize_block b in
    let rest = write_items write_block blocks in
    let small : length text % u32_mod ≡ length text = omega (arith, h.0.size) in
    let filled : length text == 0 ≡ false = ground (arith, length-serialize_block b) in
    let fits : ltb max_serialized_block_size (length text) ≡ false = ground (arith, h.0.size) in
    let whole : ltb (length (text ++ rest)) (length text) ≡ false =
      ground (arith, length-append text rest) in
    rw
      (
        small,
        append_assoc (write_u32 (length text)) text rest,
        decode_blocks,
        read_size-write (length text) (text ++ rest) (omega (arith, h.0.size)),
        filled,
        fits,
        whole,
        take-append_self text rest,
        deserialize_self b h.0,
        drop-append_self text rest,
        decode_blocks-write blocks h.1,
      )
      refl

-- Between 1 and 4096 blocks, each within the limits of its binary form and of 1 MiB, are read back
-- from the payload of a BLOCKS message as they were.
pub decode-encode_chain_payload :
    (blocks : List Block)
    → 0 < length blocks
    → length blocks ≤ max_chain_blocks_per_message
    → All IsSendable blocks
    → decode_chain_payload (encode_chain_payload blocks) ≡ blocks
unfolding decode_chain_payload encode_chain_payload
decode-encode_chain_payload blocks some_block few h =
    let small : length blocks % u32_mod ≡ length blocks = omega (arith, few) in
    rw
      (
        small,
        decode_chain_payload,
        encode_chain_payload,
        read_size-write (length blocks) (write_items write_block blocks) (omega (arith, few)),
      )
      (ground (arith, some_block, few, decode_blocks-write blocks h))

deserialize_sized :
    (t : ℕ) (payload : Bytes)
    → length payload ≤ max_p2p_message_size
    → deserialize_message (t ∷ (write_u32 (length payload) ++ payload))
      ≡ message (record { type = t; payload = payload })
unfolding deserialize_message
deserialize_sized t payload h =
    let whole : take (length payload) payload ≡ payload =
      subst (λ text. take (length payload) text ≡ payload) (append-nil payload)
        (take-append_self payload []) in
    let fits : leb (length payload) (length payload) ≡ true = ground arith in
    rw
      (
        deserialize_message,
        read_size-write (length payload) payload (omega (arith, h)),
        fits,
        whole,
      )
      refl

-- A message with a payload of at most 4 MiB is read back as it was sent; one with a larger payload
-- is sent as no bytes at all, which are read as a message whose type has no value.
deserialize-serialize_message :
    (msg : P2pMessage)
    → deserialize_message (serialize_message msg)
      ≡ (if ltb max_p2p_message_size (length msg.payload) then untyped else message msg)
unfolding serialize_message deserialize_message
deserialize-serialize_message msg =
    elim (Bool-cases (ltb max_p2p_message_size (length msg.payload))) [
      | inl large ↦ rw (large, serialize_message) refl
      | inr fits ↦
          rw (fits, serialize_message)
            (deserialize_sized msg.type msg.payload (ground (arith, fits)))
    ]
