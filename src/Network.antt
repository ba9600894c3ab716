-- ===== src/Network.antt =====
-- The messages of the peer-to-peer network: include/mermai/mermai_network.hpp and
-- src/network/mermai_network.cpp. Sockets and threads are outside of the model.
pub mod RoundTrip
pub mod Peers
pub mod Node
mod Tests
use mermai_blockchain.Base.{
  ℕ, zero, suc, ◌+◌, ◌-◌, ◌*◌, ◌/◌, ◌%◌, Bool, true, false, ◌||◌, Option, none, some, List, [], ◌∷◌,
  ◌++◌, ltb, leb, length, take, drop, min, if◌then◌else◌,
}
use mermai_blockchain.Base.Words.{u32_mod, add32}
use mermai_blockchain.Base.Key.{Bytes, nat_key, ◌==◌}
use mermai_blockchain.Wire.{Result, ok, err, write_u32, write_string, write_items}
use mermai_blockchain.Block.{Block, serialize_block, deserialize_block}

-- `mermai_message_type`: an enumeration over a byte, which holds any byte.
abbrev pub hello_type : ℕ
hello_type = 0

abbrev pub get_blocks_type : ℕ
get_blocks_type = 16

abbrev pub blocks_type : ℕ
blocks_type = 17

abbrev pub block_type : ℕ
block_type = 19

abbrev pub new_transaction_type : ℕ
new_transaction_type = 33

abbrev pub block_vote_type : ℕ
block_vote_type = 49

abbrev pub max_p2p_message_size : ℕ
max_p2p_message_size = 4 * 1024 * 1024

abbrev pub max_chain_blocks_per_message : ℕ
max_chain_blocks_per_message = 4096

abbrev pub max_serialized_block_size : ℕ
max_serialized_block_size = 1024 * 1024

-- `P2PMessage`; its field `payload_size` is written by `deserialize` and read by nothing else.
pub record P2pMessage : Type 0 where
  pub type : ℕ
  pub payload : Bytes

-- `P2PMessage::serialize`
unfoldable pub serialize_message : P2pMessage → Bytes
serialize_message msg =
    if ltb max_p2p_message_size (length msg.payload)
    then []
    else msg.type ∷ (write_u32 (length msg.payload) ++ msg.payload)

-- Four bytes, the most significant first.
unfoldable pub u32_of : ℕ → ℕ → ℕ → ℕ → ℕ
u32_of a b c d = ((a * 256 + b) * 256 + c) * 256 + d

-- The size in the next four bytes and what follows, if there are so many.
unfoldable pub read_size : Bytes → Option (ℕ × Bytes)
unfolding u32_of
read_size (a ∷ b ∷ c ∷ d ∷ rest) = some (u32_of a b c d, rest)
read_size _ = none

-- What `P2PMessage::deserialize` returns: fewer than 5 bytes leave the type without a value, and a
-- size for which `5 + payload_size` wraps around lets it read past the end of the data.
pub data Deserialized : Type 0 where
  untyped : Deserialized
  reads_past_end : Deserialized
  message : P2pMessage → Deserialized

unfoldable pub deserialize_message : Bytes → Deserialized
unfolding read_size
deserialize_message [] = untyped
deserialize_message (t ∷ data') = elim (read_size data') [
  | none ↦ untyped
  | some sized ↦
      if leb sized.0 (length sized.1)
      then message (record { type = t; payload = take sized.0 sized.1 })
      else if ltb (length sized.1 + 5) (add32 5 sized.0)
      then message (record { type = t; payload = [] })
      else reads_past_end
]

-- `append_string`
abbrev pub append_string : Bytes → Bytes
append_string = write_string

-- `encode_chain_payload`: a block is preceded by its size.
unfoldable pub write_block : Block → Bytes
write_block b = write_string (serialize_block b)

unfoldable pub encode_chain_payload : List Block → Bytes
unfolding write_block
encode_chain_payload blocks = write_u32 (length blocks % u32_mod) ++ write_items write_block blocks

-- The loop of `decode_chain_payload`, over the number of blocks left: none is the empty result that
-- it gives for anything that is not whole.
unfoldable pub decode_blocks : ℕ → Bytes → Option (List Block)
unfolding read_size
decode_blocks zero [] = some []
decode_blocks zero (b ∷ rest) = none
decode_blocks (suc count) input = elim (read_size input) [
  | none ↦ none
  | some sized ↦
      let later = decode_blocks count (drop sized.0 sized.1) in
      if sized.0 == 0 || (ltb max_serialized_block_size sized.0 || ltb (length sized.1) sized.0)
      then none
      else (elim (deserialize_block (take sized.0 sized.1)) [
        | err reason ↦ none
        | ok block ↦ (elim later [ none ↦ none | some blocks ↦ some (block ∷ blocks) ])
      ])
]

unfoldable pub decode_chain_payload : Bytes → List Block
unfolding read_size decode_blocks
decode_chain_payload payload = elim (read_size payload) [
  | none ↦ []
  | some sized ↦
      if sized.0 == 0 || ltb max_chain_blocks_per_message sized.0
      then []
      else (elim (decode_blocks sized.0 sized.1) [ none ↦ [] | some blocks ↦ blocks ])
]

-- `hello_message`; no blockchain is the height 0.
unfoldable pub hello_message : Bytes → ℕ → ℕ → P2pMessage
hello_message node_id port height = record {
  type = hello_type;
  payload =
      write_u32 1
      ++ (append_string node_id ++ ((port / 256 % 256) ∷ (port % 256) ∷ write_u32 height));
}

-- `mermai_peer`, without its socket.
pub record Peer : Type 0 where
  pub peer_id : Bytes
  pub address : Bytes
  pub port : ℕ
  pub last_seen : ℕ
  pub reputation : ℕ

unfoldable pub new_peer : ℕ → Bytes → Bytes → ℕ → Peer
new_peer now id addr p = record {
  peer_id = id;
  address = addr;
  port = p;
  last_seen = now;
  reputation = 100;
}

-- The points are not negative: the program gives 10.
unfoldable pub increase_reputation : ℕ → Peer → Peer
increase_reputation points p = record p { reputation = min 100 (p.reputation + points) }

-- A difference below 0 becomes 0.
unfoldable pub decrease_reputation : ℕ → Peer → Peer
decrease_reputation points p = record p { reputation = p.reputation - points }

unfoldable pub is_trusted : Peer → Bool
is_trusted p = ltb 50 p.reputation

unfoldable pub is_banned : Peer → Bool
is_banned p = p.reputation == 0

unfoldable pub update_last_seen : ℕ → Peer → Peer
update_last_seen now p = record p { last_seen = now }
