-- ===== src/Quorum/Tests.antt =====
-- A vote that makes a block final, and that counts once when it comes twice.
use mermai_blockchain.Base.{◌*◌, ◌≤◌, ◌<◌, ◌≡◌, refl, true, false, List, [], ◌∷◌, arith}
use mermai_blockchain.Base.Key.{Bytes, bytes_beq}
use mermai_blockchain.Base.Map.{find, find_or, insert, contains}
use mermai_blockchain.Base.Set.{member, add}
use mermai_blockchain.Crypto.Sample.{sample_crypto, sample_signature}
use mermai_blockchain.Floats.Sample.{sample_floats}
use mermai_blockchain.Vote.{BlockVote, vote_signing_payload, verify_vote_signature}
use mermai_blockchain.Staking.{ValidatorStake, TimeWeightedPos, validator_of}
use mermai_blockchain.Staking.Engine.{get_total_active_stake}
use mermai_blockchain.Quorum.{new_collector, add_vote, is_block_finalized, voter_stake}
use mermai_blockchain.Quorum.Votes.{IsBallot}
use mermai_blockchain.Quorum.Tally.{
  Call, adds, run, enter_vote, tally, run-new_collector-IsCounted, add_vote_finalizes,
}
use mermai_blockchain.Quorum.Entries.{has_entry, stake_of, votes_of, IsCounted}

abbrev validator : Bytes → Bytes → ValidatorStake sample_floats.Float
validator address key = record {
  address = address;
  amount = 1000000;
  lock_time = 5;
  last_proposal = 0;
  weight = 0;
  public_key = key;
}

abbrev engine : TimeWeightedPos sample_floats.Float
engine = record { active_validators = validator (97 ∷ []) (5 ∷ []) ∷ []; pending_rewards = [] }

abbrev unsigned : BlockVote
unsigned = record {
  validator_address = 97 ∷ [];
  block_hash = 170 ∷ [];
  block_height = 1;
  timestamp = 20;
  validator_public_key = 5 ∷ [];
  signature = [];
}

abbrev vote : BlockVote
vote = record unsigned { signature = sample_signature (5 ∷ []) (vote_signing_payload unsigned) }

-- The vote comes twice.
abbrev calls : List (Call sample_floats sample_crypto)
calls = adds vote engine ∷ adds vote engine ∷ []

once : stake_of (tally sample_floats sample_crypto (170 ∷ []) [] calls) ≡ 1000000
unfolding tally bytes_beq verify_vote_signature vote_signing_payload validator_of voter_stake
    has_entry
once = refl

run-new_collector-IsCounted_example :
    IsCounted
      (170 ∷ [])
      (tally sample_floats sample_crypto (170 ∷ []) [] calls)
      (run sample_floats sample_crypto new_collector calls)
    × IsBallot sample_crypto
        (170 ∷ [])
        (votes_of (tally sample_floats sample_crypto (170 ∷ []) [] calls))
run-new_collector-IsCounted_example =
    run-new_collector-IsCounted sample_floats sample_crypto calls (170 ∷ [])

before : is_block_finalized (170 ∷ []) (run sample_floats sample_crypto new_collector []) ≡ false
unfolding is_block_finalized new_collector member run
before = refl

after :
    is_block_finalized
      (170 ∷ [])
      (add_vote sample_floats sample_crypto vote engine
        (run sample_floats sample_crypto new_collector [])).0
    ≡ true
unfolding is_block_finalized add_vote new_collector member add find_or find insert contains run
    bytes_beq get_total_active_stake verify_vote_signature vote_signing_payload validator_of
after = refl

total_stake : get_total_active_stake sample_floats engine ≡ 1000000
unfolding get_total_active_stake
total_stake = refl

vote_stake :
    stake_of (
      enter_vote sample_floats sample_crypto
        (170 ∷ [])
        vote
        engine
        (tally sample_floats sample_crypto (170 ∷ []) [] []))
    ≡ 1000000
unfolding enter_vote tally bytes_beq verify_vote_signature vote_signing_payload validator_of
    voter_stake has_entry
vote_stake = refl

add_vote_finalizes_example :
    (170 ∷ [] ≡ vote.block_hash)
    × (0 < get_total_active_stake sample_floats engine)
    × (get_total_active_stake sample_floats engine * 2
        ≤ stake_of (
            enter_vote sample_floats sample_crypto
              (170 ∷ [])
              vote
              engine
              (tally sample_floats sample_crypto (170 ∷ []) [] []))
          * 3)
    × IsBallot sample_crypto (170 ∷ []) (
        votes_of (
          enter_vote sample_floats sample_crypto
            (170 ∷ [])
            vote
            engine
            (tally sample_floats sample_crypto (170 ∷ []) [] [])))
add_vote_finalizes_example =
    add_vote_finalizes sample_floats sample_crypto [] vote engine (170 ∷ []) before after
      (omega (arith, total_stake)) (omega (arith, vote_stake))
