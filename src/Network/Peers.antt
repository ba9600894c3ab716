-- ===== src/Network/Peers.antt =====
-- What `mermai_p2p_node` keeps of its peers: bans, reputations, limits.
pub mod Limits
use mermai_blockchain.Base.{
  ℕ, zero, suc, ◌+◌, ◌-◌, Bool, true, false, ◌&&◌, ◌||◌, not, Option, none, some, List, [], ◌∷◌,
  ◌++◌, ltb, leb, length, get_elem?, is_empty, drop, if◌then◌else◌,
}
use mermai_blockchain.Base.Words.{add32}
use mermai_blockchain.Base.Integers.{ℤ, pos, ◌+ℤ◌, at_most_minus}
use mermai_blockchain.Base.Key.{Bytes, bytes_key, nat_key, ◌==◌}
use mermai_blockchain.Base.Map.{Map, find_or, insert}
use mermai_blockchain.Base.Set.{member, add}
use mermai_blockchain.Crypto.{Crypto}
use mermai_blockchain.Floats.{Floats}
use mermai_blockchain.Wire.{Result, ok, err}
use mermai_blockchain.Transaction.{Transaction, deserialize_transaction}
use mermai_blockchain.Transaction.Verify.{verify_transaction}
use mermai_blockchain.Block.{Block, serialize_block, deserialize_block}
use mermai_blockchain.Vote.{deserialize_vote}
use mermai_blockchain.Staking.{TimeWeightedPos}
use mermai_blockchain.Quorum.{QuorumCollector, add_vote}
use mermai_blockchain.Chain.{
  Blockchain, can_add_block, add_block, replace_chain_if_longer, get_block, get_height,
}
use mermai_blockchain.Database.{Statement, Reply}
use mermai_blockchain.Database.Store.{apply_block}
use mermai_blockchain.Database.Records.{add_to_mempool}
use mermai_blockchain.Network.{
  get_blocks_type, blocks_type, block_type, new_transaction_type, block_vote_type, P2pMessage,
  encode_chain_payload, decode_chain_payload, Peer, decrease_reputation,
}

-- What the node knows of its peers.
pub record PeerTable : Type 0 where
  pub peers : List Peer
  pub banned_ips : List Bytes
  pub peer_reputation_map : Map Bytes ℤ
  pub block_rate_counts : Map Bytes ℕ
  pub subnet_connection_counts : Map Bytes ℕ

abbrev pub max_peers : ℕ
max_peers = 100

abbrev pub rate_limit_per_window : ℕ
rate_limit_per_window = 15

abbrev pub max_peers_per_subnet : ℕ
max_peers_per_subnet = 3

unfoldable pub new_peer_table : PeerTable
new_peer_table = record {
  peers = [];
  banned_ips = [];
  peer_reputation_map = [];
  block_rate_counts = [];
  subnet_connection_counts = [];
}

unfoldable pub add_peer : Peer → PeerTable → PeerTable
add_peer peer t =
    if ltb (length t.peers) max_peers then record t { peers = t.peers ++ (peer ∷ []) } else t

-- `std::remove_if`
unfoldable pub without_peer : Bytes → List Peer → List Peer
without_peer id [] = []
without_peer id (p ∷ peers) =
    let rest = without_peer id peers in if p.peer_id == id then rest else p ∷ rest

unfoldable pub remove_peer : Bytes → PeerTable → PeerTable
unfolding without_peer
remove_peer id t = record t { peers = without_peer id t.peers }

unfoldable pub find_peer : Bytes → List Peer → Option Peer
find_peer id [] = none
find_peer id (p ∷ peers) = if p.peer_id == id then some p else find_peer id peers

unfoldable pub get_peer : Bytes → PeerTable → Option Peer
unfolding find_peer
get_peer id t = find_peer id t.peers

unfoldable pub ban_peer : Bytes → PeerTable → PeerTable
ban_peer address t = record t { banned_ips = add address t.banned_ips }

-- `is_banned` and `is_peer_banned`
unfoldable pub is_peer_banned : Bytes → PeerTable → Bool
is_peer_banned address t = member address t.banned_ips

unfoldable pub get_peer_reputation : Bytes → PeerTable → ℤ
get_peer_reputation ip t = find_or (pos 0) ip t.peer_reputation_map

unfoldable pub update_peer_reputation : Bytes → ℤ → PeerTable → PeerTable
unfolding get_peer_reputation
update_peer_reputation ip delta t =
    let score = get_peer_reputation ip t +ℤ delta in
    record t {
      peer_reputation_map = insert ip score t.peer_reputation_map;
      banned_ips = if at_most_minus 100 score then add ip t.banned_ips else t.banned_ips;
    }

unfoldable pub allow_block_from_peer : Bytes → PeerTable → PeerTable × Bool
allow_block_from_peer ip t =
    let count = find_or 0 ip t.block_rate_counts in
    if leb rate_limit_per_window count
    then (t, false)
    else (record t { block_rate_counts = insert ip (count + 1) t.block_rate_counts }, true)

-- `ip.rfind('.')`, and the part before it: none if there is no '.'.
unfoldable pub before_last_dot : Bytes → Option Bytes
before_last_dot [] = none
before_last_dot (c ∷ text) = elim (before_last_dot text) [
  | some front ↦ some (c ∷ front)
  | none ↦ if c == b'.' then some [] else none
]

unfoldable pub get_subnet : Bytes → Bytes
unfolding before_last_dot
get_subnet ip = elim (before_last_dot ip) [ none ↦ ip | some front ↦ front ]

unfoldable pub allow_subnet_connection : Bytes → PeerTable → PeerTable × Bool
unfolding get_subnet
allow_subnet_connection ip t =
    let subnet = get_subnet ip in
    let count = find_or 0 subnet t.subnet_connection_counts in
    if leb max_peers_per_subnet count then (t, false) else (
      record t { subnet_connection_counts = insert subnet (count + 1) t.subnet_connection_counts },
      true,
    )
