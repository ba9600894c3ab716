-- ===== src/Quorum.antt =====
-- `mermai_quorum_collector`: include/mermai/mermai_consensus.hpp and
-- src/consensus/mermai_consensus.cpp.
pub mod Votes
pub mod Entries
pub mod Tally
mod Tests
use mermai_blockchain.Base.{
  ℕ, Bool, true, false, ◌&&◌, ◌||◌, not, Option, none, some, List, [], ◌∷◌, ◌++◌, ltb, leb,
  is_empty, if◌then◌else◌,
}
use mermai_blockchain.Base.Words.{add64, mul64}
use mermai_blockchain.Base.Key.{Bytes, bytes_key, nat_key, ◌==◌}
use mermai_blockchain.Base.Map.{Map, find_or, insert}
use mermai_blockchain.Base.Set.{member, add}
use mermai_blockchain.Crypto.{Crypto}
use mermai_blockchain.Floats.{Floats}
use mermai_blockchain.Vote.{BlockVote, verify_vote_signature}
use mermai_blockchain.Staking.{ValidatorStake, TimeWeightedPos, validator_of}
use mermai_blockchain.Staking.Engine.{get_total_active_stake}

pub record QuorumCollector : Type 0 where
  pub block_votes : Map Bytes (List BlockVote)
  pub vote_stake_totals : Map Bytes ℕ
  pub finalized_blocks : List Bytes

unfoldable pub new_collector : QuorumCollector
new_collector = record { block_votes = []; vote_stake_totals = []; finalized_blocks = [] }

-- The loop that looks for an earlier vote of the validator.
unfoldable pub has_voted : Bytes → List BlockVote → Bool
has_voted address [] = false
has_voted address (v ∷ votes) =
    if v.validator_address == address then true else has_voted address votes

unfoldable pub get_votes : Bytes → QuorumCollector → List BlockVote
get_votes block_hash c = find_or [] block_hash c.block_votes

unfoldable pub get_vote_stake : Bytes → QuorumCollector → ℕ
get_vote_stake block_hash c = find_or 0 block_hash c.vote_stake_totals

unfoldable pub is_block_finalized : Bytes → QuorumCollector → Bool
is_block_finalized block_hash c = member block_hash c.finalized_blocks

unfoldable pub clear : QuorumCollector → QuorumCollector
clear c = new_collector

-- `uint64_t` on both sides of the comparison with two thirds.
unfoldable pub reaches_quorum : ℕ → ℕ → Bool
reaches_quorum stake total_stake = ltb 0 total_stake && leb (mul64 total_stake 2) (mul64 stake 3)

-- The part of `add_vote` after the checks of the voter.
unfoldable pub record_vote : BlockVote → ℕ → ℕ → QuorumCollector → QuorumCollector
unfolding has_voted get_votes get_vote_stake reaches_quorum
record_vote vote voter_stake total_stake c =
    let votes = get_votes vote.block_hash c in
    let stake = add64 (get_vote_stake vote.block_hash c) voter_stake in
    if has_voted vote.validator_address votes then c else record {
      block_votes = insert vote.block_hash (votes ++ (vote ∷ [])) c.block_votes;
      vote_stake_totals = insert vote.block_hash stake c.vote_stake_totals;
      finalized_blocks =
          if reaches_quorum stake total_stake
          then add vote.block_hash c.finalized_blocks
          else c.finalized_blocks;
    }

-- The stake of the voter, where the vote may count.
unfoldable pub voter_stake :
    (floats : Floats) → Crypto → BlockVote → TimeWeightedPos floats.Float → Option ℕ
voter_stake floats crypto vote consensus =
    if not (verify_vote_signature crypto vote)
    then none
    else elim (validator_of floats vote.validator_address consensus.active_validators) [
      | none ↦ none
      | some v ↦
          if not (is_empty v.public_key) && not (v.public_key == vote.validator_public_key)
          then none
          else if v.amount == 0
          then none
          else some v.amount
    ]

unfoldable pub add_vote :
    (floats : Floats)
    → Crypto
    → BlockVote
    → TimeWeightedPos floats.Float
    → QuorumCollector
    → QuorumCollector × Bool
unfolding record_vote voter_stake
add_vote floats crypto vote consensus c = elim (voter_stake floats crypto vote consensus) [
  | none ↦ (c, false)
  | some stake ↦ (record_vote vote stake (get_total_active_stake floats consensus) c, true)
]
