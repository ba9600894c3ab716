-- ===== src/Proposal/Tests.antt =====
-- Two blocks of one validator for one slot.
use mermai_blockchain.Base.{◌≡◌, refl, true, false, [], ◌∷◌, arith}
use mermai_blockchain.Base.Key.{Bytes, bytes_beq, bytes_beq_iff}
use mermai_blockchain.Base.Map.{find}
use mermai_blockchain.Crypto.{hex_encode}
use mermai_blockchain.Crypto.Sample.{sample_crypto}
use mermai_blockchain.Floats.Sample.{sample_floats}
use mermai_blockchain.Wire.{write_value, write_string, write_bytes, write_items}
use mermai_blockchain.Vote.{to_decimal}
use mermai_blockchain.Block.{Block, serialize_block, calculate_hash}
use mermai_blockchain.Staking.{TimeWeightedPos, calculate_weight, validator_of}
use mermai_blockchain.Staking.Engine.{select_block_proposer, little_endian}
use mermai_blockchain.Proposal.{block_hash_hex, validate_proposal}
use mermai_blockchain.Proposal.Equivocation.{see_all, validate_proposal-no_equivocation}

abbrev engine : TimeWeightedPos sample_floats.Float
engine = record {
  active_validators =
      record {
        address = 97 ∷ [];
        amount = 1000000;
        lock_time = 5;
        last_proposal = 0;
        weight = 0;
        public_key = [];
      }
      ∷ [];
  pending_rewards = [];
}

abbrev block : Bytes → Block
block note = record {
  version = 1;
  height = 1;
  prev_block_hash = [];
  merkle_root = note;
  timestamp = 23;
  nonce = 0;
  validator_address = 97 ∷ [];
  validator_stake = 1000000;
  validator_age = 15;
  validator_public_key = [];
  validator_signature = [];
  transactions = [];
}

accepted : (validate_proposal sample_floats sample_crypto (block []) 23 engine []).1 ≡ true
unfolding validate_proposal select_block_proposer find bytes_beq calculate_weight little_endian
    to_decimal validator_of
accepted = refl

hashes_differ :
    bytes_beq
      (block_hash_hex sample_crypto (block []))
      (block_hash_hex sample_crypto (block (1 ∷ [])))
    ≡ false
unfolding bytes_beq hex_encode calculate_hash serialize_block write_value write_string write_bytes
    write_items
hashes_differ = refl

validate_proposal-no_equivocation_example :
    (validate_proposal sample_floats sample_crypto (block (1 ∷ [])) 29 engine (
      see_all sample_floats sample_crypto
        ((block [], 25, engine) ∷ [])
        (validate_proposal sample_floats sample_crypto (block []) 23 engine []).0.1)).1
    ≡ false
validate_proposal-no_equivocation_example =
    validate_proposal-no_equivocation sample_floats sample_crypto (block []) (block (1 ∷ [])) 23 29
      engine engine [] ((block [], 25, engine) ∷ []) accepted refl refl
      (λ e. ground (
        arith,
        hashes_differ,
        bytes_beq_iff (block_hash_hex sample_crypto (block []))
            (block_hash_hex sample_crypto (block (1 ∷ []))),
      ))
