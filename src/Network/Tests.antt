-- ===== src/Network/Tests.antt =====
-- A node that takes a block, and small messages.
use mermai_blockchain.Base.{◌&&◌, ◌≤◌, ◌≡◌, refl, none, some, List, [], ◌∷◌, arith, length}
use mermai_blockchain.Base.Integers.{negsuc}
use mermai_blockchain.Crypto.Sample.{sample_crypto}
use mermai_blockchain.Floats.Sample.{sample_floats}
use mermai_blockchain.Block.{Block, serialize_block}
use mermai_blockchain.Chain.{Blockchain, new_blockchain, run}
use mermai_blockchain.Chain.Linked.{run-new_blockchain-IsWellFormed}
use mermai_blockchain.Chain.Links.{IsWellFormed}
use mermai_blockchain.Database.Sample.{SampleDb, sample_run}
use mermai_blockchain.Network.{
  Peer, new_peer, block_type, get_blocks_type, encode_chain_payload, decode_chain_payload,
}
use mermai_blockchain.Network.RoundTrip.{IsSendable, decode-encode_chain_payload}
use mermai_blockchain.Network.Peers.{new_peer_table, is_peer_banned}
use mermai_blockchain.Network.Peers.Limits
use mermai_blockchain.Network.Peers.Limits.{
  Call, adds, rates, takes_block, granted, granted_block, granted_connection, IsLimited,
  run-new_peer_table-IsLimited,
}
use mermai_blockchain.Network.Node.{NodeState}
use mermai_blockchain.Network.Node.Safety.{Arrival, handle_all, handle_all-IsWellFormed}
use mermai_blockchain.Wire.{write_value, write_string, write_bytes, write_items}

abbrev sent_block : Block
sent_block = record {
  version = 1;
  height = 1;
  prev_block_hash = 48 ∷ 48 ∷ [];
  merkle_root = [];
  timestamp = 1640000010;
  nonce = 0;
  validator_address = 97 ∷ [];
  validator_stake = 1000000;
  validator_age = 0;
  validator_public_key = [];
  validator_signature = [];
  transactions = [];
}

sent_block-IsSendable : IsSendable sent_block
unfolding serialize_block write_value write_string write_bytes write_items
sent_block-IsSendable = record { header = omega arith; entries = tt; size = omega arith }

decode-encode_chain_payload_example :
    decode_chain_payload (encode_chain_payload (sent_block ∷ [])) ≡ sent_block ∷ []
decode-encode_chain_payload_example =
    decode-encode_chain_payload (sent_block ∷ []) (omega arith) (omega arith)
      (sent_block-IsSendable, tt)

abbrev caller : Peer
caller = new_peer 0 (1 ∷ []) (49 ∷ []) 6333

abbrev calls : List Call
calls = adds caller ∷ rates (49 ∷ []) (negsuc 120) ∷ takes_block (49 ∷ []) ∷ []

abbrev start : NodeState sample_floats.Float SampleDb
start = record {
  blockchain = some (new_blockchain sample_floats sample_crypto none);
  database = none;
  quorum = none;
}

abbrev arrivals : List (Arrival sample_floats sample_crypto sample_run)
arrivals =
    record {
      now = 1640000020;
      consensus = none;
      msg = record { type = block_type; payload = serialize_block sent_block };
      peer = caller;
    }
    ∷ record {
      now = 1640000030;
      consensus = none;
      msg = record { type = get_blocks_type; payload = [] };
      peer = caller;
    }
    ∷ []

start_chain-IsWellFormed :
    IsWellFormed sample_floats sample_crypto (new_blockchain sample_floats sample_crypto none).chain
unfolding run
start_chain-IsWellFormed = (run-new_blockchain-IsWellFormed sample_floats sample_crypto none []).0

handle_all-IsWellFormed_example :
    (after : Blockchain sample_floats.Float) × ((handle_all sample_floats sample_crypto sample_run
        start arrivals).blockchain
      ≡ some after)
    × IsWellFormed sample_floats sample_crypto after.chain
    × (length (new_blockchain sample_floats sample_crypto none).chain ≤ length after.chain)
handle_all-IsWellFormed_example =
    handle_all-IsWellFormed sample_floats sample_crypto sample_run arrivals start
      (new_blockchain sample_floats sample_crypto none) refl start_chain-IsWellFormed

run-new_peer_table-IsLimited_example :
    IsLimited (Limits.run new_peer_table calls)
    × (granted (granted_block (49 ∷ [])) new_peer_table calls ≤ 15)
    × (granted (granted_connection (49 ∷ [])) new_peer_table calls ≤ 3)
    × (is_peer_banned (49 ∷ []) (Limits.run new_peer_table calls)
          && is_peer_banned (49 ∷ []) (Limits.run (Limits.run new_peer_table calls) calls)
        ≡ is_peer_banned (49 ∷ []) (Limits.run new_peer_table calls))
run-new_peer_table-IsLimited_example = run-new_peer_table-IsLimited calls calls (49 ∷ []) (49 ∷ [])
