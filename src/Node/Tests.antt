-- ===== src/Node/Tests.antt =====
-- A node that starts from an empty database, and one whose only validator has a key.
use mermai_blockchain.Base.{
  ◌≤◌, ◌≡◌, refl, true, false, none, some, List, [], ◌∷◌, arith, length, is_empty, replicate,
}
use mermai_blockchain.Base.Key.{bytes_key, bytes_beq, bytes_beq_iff}
use mermai_blockchain.Base.Map.{find}
use mermai_blockchain.Crypto.{hex_encode}
use mermai_blockchain.Crypto.Sample.{sample_crypto}
use mermai_blockchain.Floats.Sample.{sample_floats}
use mermai_blockchain.Wire.{write_value, write_string, write_bytes, write_items}
use mermai_blockchain.Vote.{to_decimal}
use mermai_blockchain.Block.{
  Block, new_block, serialize_block, calculate_hash, sign_block, block_signing_payload,
  verify_time_weight_pos,
}
use mermai_blockchain.Staking.{
  ValidatorStake, TimeWeightedPos, new_pos, calculate_weight, validator_of,
}
use mermai_blockchain.Staking.Engine.{select_block_proposer, slash_validator, little_endian}
use mermai_blockchain.Proposal.{block_hash_hex, slot_of}
use mermai_blockchain.Chain.{
  Blockchain, genesis, new_blockchain, set_consensus_engine, can_add_block, follows,
  get_latest_block, get_height, last_block,
}
use mermai_blockchain.Chain.Links.{IsWellFormed}
use mermai_blockchain.Database.Sample.{SampleDb, sample_run, seen}
use mermai_blockchain.Database.Store.{execute}
use mermai_blockchain.Database.Records.{get_latest_block_height, first_integer}
use mermai_blockchain.Database.Validators.{get_all_validators}
use mermai_blockchain.Database.{rows_of}
use mermai_blockchain.Network.{new_peer, get_blocks_type}
use mermai_blockchain.Network.Node.{NodeState}
use mermai_blockchain.Node.{initialize, produce_block, stamp, proposed_block}
use mermai_blockchain.Node.Safety.{
  Event, produces, receives, stops, apply_all, initialize-apply_all-IsWellFormed,
}
use mermai_blockchain.Node.Production.{IsKeyedTurn, own_block, proposer_at, produce_block-slashes}
use mermai_blockchain.Quorum.{new_collector}

abbrev empty_db : SampleDb
empty_db = record { active = false; stored = []; working = [] }

abbrev fresh : NodeState sample_floats.Float SampleDb
fresh = record {
  blockchain = some (
      set_consensus_engine sample_floats sample_crypto (some (new_pos sample_floats))
        (new_blockchain sample_floats sample_crypto none));
  database = some (some empty_db);
  quorum = some new_collector;
}

events : List (Event sample_floats sample_crypto sample_run)
events =
    produces 1640000010
    ∷ receives 1640000020 (record { type = get_blocks_type; payload = [] })
        (new_peer 0 (1 ∷ []) (49 ∷ []) 6333)
    ∷ stops
    ∷ []

fresh_started :
    initialize sample_floats sample_crypto sample_run 1640000000 (some (some empty_db)) true true
    ≡ some fresh
unfolding initialize get_all_validators execute get_latest_block_height sample_run seen rows_of
    first_integer
fresh_started = refl

initialize-apply_all-IsWellFormed_example :
    (start after : Blockchain sample_floats.Float) × (fresh.blockchain ≡ some start)
    × ((apply_all sample_floats sample_crypto sample_run fresh events).blockchain ≡ some after)
    × IsWellFormed sample_floats sample_crypto after.chain
    × (length start.chain ≤ length after.chain)
initialize-apply_all-IsWellFormed_example =
    initialize-apply_all-IsWellFormed sample_floats sample_crypto sample_run 1640000000
      (some (some empty_db)) true true fresh events fresh_started

abbrev validator : ValidatorStake sample_floats.Float
validator = record {
  address = 97 ∷ [];
  amount = 1000000;
  lock_time = 5;
  last_proposal = 0;
  weight = 0;
  public_key = 8 ∷ [];
}

abbrev engine : TimeWeightedPos sample_floats.Float
engine = record { active_validators = validator ∷ []; pending_rewards = [] }

abbrev chain : Blockchain sample_floats.Float
chain = record { chain = genesis ∷ []; consensus_engine = some engine; seen_proposals = [] }

abbrev node : NodeState sample_floats.Float SampleDb
node = record { blockchain = some chain; database = none; quorum = none }

abbrev own : Block
own = own_block sample_floats sample_crypto sample_run 1640000012 engine genesis chain

-- The block that the proposer signs.
abbrev signed : Block
signed = (sign_block sample_crypto (some (8 ∷ [])) own).0

node-IsKeyedTurn :
    IsKeyedTurn sample_floats sample_crypto sample_run 1640000012 node chain engine genesis
      validator
unfolding select_block_proposer calculate_weight little_endian to_decimal validator_of bytes_beq
    get_latest_block genesis last_block
node-IsKeyedTurn = record {
  on_chain = refl;
  present = refl;
  last = refl;
  named = refl;
  chosen = refl;
  keyed = refl;
}

signed_follows : follows sample_floats sample_crypto 1640000012 1 genesis signed ≡ true
unfolding follows sign_block proposed_block stamp new_block validator_of get_height bytes_beq
    hex_encode calculate_hash serialize_block write_value write_string write_bytes write_items
    verify_time_weight_pos select_block_proposer calculate_weight little_endian to_decimal genesis
    replicate
signed_follows = refl

hashes_differ :
    bytes_beq (block_hash_hex sample_crypto own) (block_hash_hex sample_crypto signed) ≡ false
unfolding bytes_beq hex_encode calculate_hash serialize_block write_value write_string write_bytes
    write_items sign_block proposed_block stamp new_block validator_of get_height
    select_block_proposer calculate_weight little_endian to_decimal genesis replicate
    block_signing_payload
hashes_differ = refl

genesis_is_old : genesis.timestamp ≤ 1640000010
unfolding genesis
genesis_is_old = omega arith

hash_is_there : is_empty (block_hash_hex sample_crypto genesis) ≡ false
unfolding hex_encode calculate_hash
hash_is_there = refl

signed_slot : slot_of signed.timestamp ≡ slot_of 1640000012
unfolding sign_block proposed_block stamp validator_of select_block_proposer bytes_beq
    calculate_weight little_endian to_decimal new_block
signed_slot = refl

signed_by_proposer :
    signed.validator_address ≡ proposer_at sample_floats sample_crypto sample_run 1640000012 engine
unfolding sign_block proposed_block stamp validator_of select_block_proposer bytes_beq
    calculate_weight little_endian to_decimal new_block
signed_by_proposer = refl

produce_block-slashes_example :
    ((produce_block sample_floats sample_crypto sample_run 1640000012 node).1 ≡ [])
    × (after : Blockchain sample_floats.Float) × ((produce_block sample_floats sample_crypto
          sample_run 1640000012 node).0.blockchain
        ≡ some after)
    × (after.chain ≡ chain.chain)
    × ((can_add_block sample_floats sample_crypto 1640000012 signed after).1 ≡ false)
    × ((can_add_block sample_floats sample_crypto 1640000012 signed after).0.consensus_engine
        ≡ some (
            slash_validator sample_floats
              (proposer_at sample_floats sample_crypto sample_run 1640000012 engine)
              (sample_floats.ratio 1 2)
              engine))
unfolding find
produce_block-slashes_example =
    produce_block-slashes sample_floats sample_crypto sample_run 1640000012 1640000012 node chain
      engine genesis validator signed node-IsKeyedTurn (omega arith) genesis_is_old hash_is_there
      (omega arith) refl signed_follows signed_slot signed_by_proposer
      (λ e. ground (
        arith,
        hashes_differ,
        bytes_beq_iff (block_hash_hex sample_crypto own) (block_hash_hex sample_crypto signed),
      ))
