-- ===== src/Network/Node.antt =====
-- The messages that `mermai_p2p_node` handles.
pub mod Growth
pub mod Safety
use mermai_blockchain.Base.{
  ℕ, zero, suc, ◌+◌, ◌-◌, Bool, true, false, ◌&&◌, ◌||◌, not, Option, none, some, List, [], ◌∷◌,
  ◌++◌, ltb, leb, length, get_elem?, is_empty, drop, if◌then◌else◌,
}
use mermai_blockchain.Base.Words.{add32}
use mermai_blockchain.Base.Integers.{ℤ, pos, ◌+ℤ◌, at_most_minus}
use mermai_blockchain.Base.Key.{Bytes, bytes_key, nat_key, ◌==◌}
use mermai_blockchain.Base.Map.{Map, find_or, insert}
use mermai_blockchain.Base.Set.{member, add}
use mermai_blockchain.Crypto.{Crypto}
use mermai_blockchain.Floats.{Floats}
use mermai_blockchain.Wire.{Result, ok, err}
use mermai_blockchain.Transaction.{Transaction, serialize_transaction, deserialize_transaction}
use mermai_blockchain.Transaction.Verify.{verify_transaction}
use mermai_blockchain.Block.{Block, serialize_block, deserialize_block}
use mermai_blockchain.Vote.{BlockVote, serialize_vote, deserialize_vote}
use mermai_blockchain.Staking.{TimeWeightedPos}
use mermai_blockchain.Quorum.{QuorumCollector, add_vote}
use mermai_blockchain.Chain.{
  Blockchain, can_add_block, add_block, replace_chain_if_longer, get_block, get_height,
}
use mermai_blockchain.Database.{Statement, Reply}
use mermai_blockchain.Database.Store.{apply_block}
use mermai_blockchain.Database.Records.{add_to_mempool}
use mermai_blockchain.Network.{
  hello_type, get_blocks_type, blocks_type, block_type, new_transaction_type, block_vote_type,
  P2pMessage, encode_chain_payload, decode_chain_payload, Peer, decrease_reputation,
}

-- What `handle_message` reads and changes: a missing part is a null pointer.
pub record NodeState (F Db : Type 0) : Type 0 where
  pub blockchain : Option (Blockchain F)
  pub database : Option (Option Db)
  pub quorum : Option QuorumCollector

-- The peer that sent the message, after it is handled, and the messages sent to it.
pub record Handled (F Db : Type 0) : Type 0 where
  pub node : NodeState F Db
  pub peer : Peer
  pub sent : List P2pMessage

-- The messages that `broadcast_block`, `broadcast_transaction`, `broadcast_vote` and `sync_blocks`
-- send to every peer.
unfoldable pub block_message : Block → P2pMessage
block_message block = record { type = block_type; payload = serialize_block block }

unfoldable pub transaction_message : Transaction → P2pMessage
transaction_message tx = record { type = new_transaction_type; payload = serialize_transaction tx }

unfoldable pub vote_message : BlockVote → P2pMessage
vote_message vote = record { type = block_vote_type; payload = serialize_vote vote }

unfoldable pub sync_message : P2pMessage
sync_message = record { type = get_blocks_type; payload = [] }

-- What the loops that receive from a peer do with a message: those of `handle_incoming_connection`
-- and of `connect_to_peer`.
pub data Reception : Type 0 where
  answers_hello handles leaves : Reception

unfoldable pub receive_incoming : P2pMessage → Reception
receive_incoming msg =
    if msg.type == hello_type
    then answers_hello
    else if is_empty msg.payload
    then leaves
    else handles

unfoldable pub receive_outgoing : P2pMessage → Reception
receive_outgoing msg =
    if is_empty msg.payload && not (msg.type == hello_type) then leaves else handles

module _ (floats : Floats) (crypto : Crypto) {Db : Type 0} (run : Statement → Db → Reply × Db) where
  abbrev pub penalised : NodeState floats.Float Db → Peer → Bool → Handled floats.Float Db
  penalised node peer accepted = record {
    node = node;
    peer = if accepted then peer else decrease_reputation 10 peer;
    sent = [];
  }

  -- The blocks of heights 0 to `get_height()`, of which there are `count`.
  unfoldable pub local_blocks : ℕ → ℕ → Blockchain floats.Float → List Block
  local_blocks height zero s = []
  local_blocks height (suc count) s =
      let rest = local_blocks (height + 1) count s in
      elim (get_block floats crypto height s) [ none ↦ rest | some block ↦ block ∷ rest ]

  -- The loop that compares the local chain with the start of the candidate.
  unfoldable pub extends_local : ℕ → ℕ → List Block → Blockchain floats.Float → Bool
  extends_local height zero candidate s = true
  extends_local height (suc count) candidate s =
      let rest = extends_local (height + 1) count candidate s in
      elim (get_block floats crypto height s) [
        | none ↦ false
        | some local ↦ (elim (get_elem? candidate height) [
          | none ↦ false
          | some block ↦ (serialize_block local == serialize_block block) && rest
        ])
      ]

  -- `can_add_block(block) && (!database || apply_block(block)) && add_block(block)`
  unfoldable pub accept_block :
      ℕ
      → Block
      → Blockchain floats.Float
      → Option (Option Db)
      → (Blockchain floats.Float × Option (Option Db)) × Bool
  accept_block now block s database =
      let checked = can_add_block floats crypto now block s in
      let added = add_block floats crypto now block checked.0 in
      if not checked.1 then ((checked.0, database), false) else elim database [
        | none ↦ ((added.0, none), added.1)
        | some db ↦
            let applied = apply_block run crypto now block db in
            if applied.0
            then ((added.0, some applied.1), added.1)
            else ((checked.0, some applied.1), false)
      ]

  -- The loop over the new blocks of a candidate, which ends at the first that is refused.
  unfoldable pub accept_blocks :
      ℕ
      → List Block
      → Blockchain floats.Float
      → Option (Option Db)
      → (Blockchain floats.Float × Option (Option Db)) × Bool
  accept_blocks now [] s database = ((s, database), true)
  accept_blocks now (block ∷ blocks) s database =
      let r = accept_block now block s database in
      if r.1 then accept_blocks now blocks r.0.0 r.0.1 else r

  -- The case BLOCKS, with a blockchain and a candidate that is not empty.
  unfoldable pub handle_candidate :
      ℕ
      → List Block
      → Blockchain floats.Float
      → NodeState floats.Float Db
      → Peer
      → Handled floats.Float Db
  handle_candidate now candidate s node peer = elim node.database [
    | none ↦
        let r = replace_chain_if_longer floats crypto now candidate s in
        penalised (record node { blockchain = some r.0 }) peer r.1
    | some db ↦
        let local_height = get_height floats crypto s in
        let r = accept_blocks now (drop (local_height + 1) candidate) s (some db) in
        if leb (length candidate) (add32 local_height 1)
        then penalised node peer true
        else if extends_local 0 (local_height + 1) candidate s
        then penalised (record node { blockchain = some r.0.0; database = r.0.1 }) peer r.1
        else penalised node peer false
  ]

  unfoldable pub handle_blocks :
      ℕ → Bytes → NodeState floats.Float Db → Peer → Handled floats.Float Db
  handle_blocks now payload node peer = elim node.blockchain [
    | none ↦ penalised node peer true
    | some s ↦
        if is_empty (decode_chain_payload payload)
        then penalised node peer false
        else handle_candidate now (decode_chain_payload payload) s node peer
  ]

  -- The case BLOCK.
  unfoldable pub handle_block :
      ℕ → Bytes → NodeState floats.Float Db → Peer → Handled floats.Float Db
  handle_block now payload node peer = elim (deserialize_block payload) [
    | err reason ↦ penalised node peer false
    | ok block ↦ (elim node.blockchain [
      | none ↦ penalised node peer false
      | some s ↦
          let r = accept_block now block s node.database in
          penalised (record node { blockchain = some r.0.0; database = r.0.1 }) peer r.1
    ])
  ]

  -- The case NEW_TRANSACTION.
  unfoldable pub handle_transaction :
      ℕ → Bytes → NodeState floats.Float Db → NodeState floats.Float Db
  handle_transaction now payload node = elim (deserialize_transaction payload) [
    | err reason ↦ node
    | ok tx ↦ (elim node.database [
      | none ↦ node
      | some db ↦
          if verify_transaction crypto now tx
          then record node { database = some (add_to_mempool run crypto tx db).1 }
          else node
    ])
  ]

  -- The case BLOCK_VOTE; the engine is given as it stands when the message comes.
  unfoldable pub handle_vote :
      Option (TimeWeightedPos floats.Float)
      → Bytes
      → NodeState floats.Float Db
      → NodeState floats.Float Db
  handle_vote consensus payload node = elim (deserialize_vote payload) [
    | err reason ↦ node
    | ok vote ↦ (elim consensus [
      | none ↦ node
      | some engine ↦ (elim node.quorum [
        | none ↦ node
        | some q ↦ record node { quorum = some (add_vote floats crypto vote engine q).0 }
      ])
    ])
  ]

  -- The case GET_BLOCKS.
  unfoldable pub blocks_response : NodeState floats.Float Db → P2pMessage
  blocks_response node = record {
    type = blocks_type;
    payload = encode_chain_payload (elim node.blockchain [
      | none ↦ []
      | some s ↦ local_blocks 0 (get_height floats crypto s + 1) s
    ]);
  }

  unfoldable pub handle_message :
      ℕ
      → Option (TimeWeightedPos floats.Float)
      → P2pMessage
      → NodeState floats.Float Db
      → Peer
      → Handled floats.Float Db
  handle_message now consensus msg node peer =
      if msg.type == get_blocks_type
      then record { node = node; peer = peer; sent = blocks_response node ∷ [] }
      else if msg.type == blocks_type
      then handle_blocks now msg.payload node peer
      else if msg.type == block_type
      then handle_block now msg.payload node peer
      else if msg.type == new_transaction_type
      then penalised (handle_transaction now msg.payload node) peer true
      else if msg.type == block_vote_type
      then penalised (handle_vote consensus msg.payload node) peer true
      else penalised node peer true
