-- ===== src/Proposal.antt =====
-- `mermai_proposal_validator`: include/mermai/mermai_consensus.hpp and
-- src/consensus/mermai_consensus.cpp. Its static map of seen proposals is a state of its own.
pub mod Equivocation
mod Tests
use mermai_blockchain.Base.{
  ℕ, ◌+◌, ◌-◌, ◌*◌, ◌%◌, Bool, true, false, ◌&&◌, ◌||◌, not, Option, none, some, List, [], ◌∷◌,
  is_empty, if◌then◌else◌,
}
use mermai_blockchain.Base.Key.{Bytes, bytes_key, nat_key, pair_key, ◌==◌}
use mermai_blockchain.Base.Map.{Map, find, insert}
use mermai_blockchain.Crypto.{Crypto, hex_encode}
use mermai_blockchain.Floats.{Floats}
use mermai_blockchain.Block.{Block, calculate_hash, verify_validator_signature}
use mermai_blockchain.Staking.{
  ValidatorStake, TimeWeightedPos, validator_of, stake_age, calculate_weight,
}
use mermai_blockchain.Staking.Engine.{select_block_proposer, slash_validator}

-- (height, slot) to the hash of the block proposed.
abbrev pub SeenProposals : Type 0
SeenProposals = Map (ℕ × ℕ) Bytes

abbrev pub slot_of : ℕ → ℕ
slot_of current_time = current_time - current_time % 10

abbrev pub block_hash_hex : Crypto → Block → Bytes
block_hash_hex crypto b = hex_encode (calculate_hash crypto b)

module _ (floats : Floats) (crypto : Crypto) where
  unfoldable pub verify_proposer_is_authorized : Bytes → floats.Float → Bool
  verify_proposer_is_authorized proposer validator_weight =
      floats.lt (floats.ratio 0 1) validator_weight && not (is_empty proposer)

  -- The loop over the validators, after the equivocation check.
  unfoldable pub matches_stake : Block → ℕ → Bytes → List (ValidatorStake floats.Float) → Bool
  unfolding verify_proposer_is_authorized
  matches_stake b slot_time expected_proposer validators =
      elim (validator_of floats expected_proposer validators) [
        | none ↦ false
        | some v ↦
            let signature_valid =
              is_empty v.public_key
              || (b.validator_public_key == v.public_key && verify_validator_signature crypto b) in
            b.validator_stake == v.amount
            && (b.validator_age == stake_age floats slot_time v
                && (signature_valid
                    && verify_proposer_is_authorized expected_proposer
                        (calculate_weight floats v slot_time)))
      ]

  -- `validate_proposal`, with the engine and the seen proposals it leaves.
  unfoldable pub validate_proposal :
      Block
      → ℕ
      → TimeWeightedPos floats.Float
      → SeenProposals
      → (TimeWeightedPos floats.Float × SeenProposals) × Bool
  unfolding matches_stake
  validate_proposal b current_time consensus seen =
      let slot_time = slot_of current_time in
      let expected_proposer = select_block_proposer floats crypto slot_time consensus in
      let hash = block_hash_hex crypto b in
      let accepted = matches_stake b slot_time expected_proposer consensus.active_validators in
      if is_empty expected_proposer || not (b.validator_address == expected_proposer)
      then ((consensus, seen), false)
      else elim (find (b.height, slot_time) seen) [
        | none ↦ ((consensus, insert (b.height, slot_time) hash seen), accepted)
        | some known ↦ if known == hash then ((consensus, seen), accepted) else (
          (slash_validator floats expected_proposer (floats.ratio 1 2) consensus, seen),
          false,
        )
      ]

  unfoldable pub reset_proposals : SeenProposals → SeenProposals
  reset_proposals seen = []
