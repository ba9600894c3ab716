-- ===== src/Node/Proposals.antt =====
-- What a chain does with unsigned blocks, and with two proposals for one slot.
use mermai_blockchain.Base.{ℕ, ◌≡◌, ◌≢◌, true, false, none, some, List, [], arith, length, is_empty}
use mermai_blockchain.Base.Key.{Bytes, bytes_key, nat_key, pair_key, ==_refl, bytes_beq_iff}
use mermai_blockchain.Base.Map.{find, find-insert}
use mermai_blockchain.Crypto.{Crypto}
use mermai_blockchain.Floats.{Floats}
use mermai_blockchain.Block.{Block, verify_validator_signature}
use mermai_blockchain.Staking.{ValidatorStake, TimeWeightedPos, validator_of}
use mermai_blockchain.Staking.Engine.{select_block_proposer, slash_validator}
use mermai_blockchain.Proposal.{
  SeenProposals, slot_of, block_hash_hex, matches_stake, validate_proposal,
}
use mermai_blockchain.Chain.{
  Blockchain, get_latest_block, follows, proposal_accepted, can_add_block,
}

module _ (floats : Floats) (crypto : Crypto) where
  unsigned_refused :
      (b : Block) → b.validator_signature ≡ [] → verify_validator_signature crypto b ≡ false
  unfolding verify_validator_signature
  unsigned_refused b e = ground arith

  -- A block without a signature is no proposal of a validator with a key.
  unsigned-matches_stake :
      (b : Block) (slot_time : ℕ) (proposer : Bytes)
      (validators : List (ValidatorStake floats.Float)) (v : ValidatorStake floats.Float)
      → b.validator_signature ≡ []
      → validator_of floats proposer validators ≡ some v
      → is_empty v.public_key ≡ false
      → matches_stake floats crypto b slot_time proposer validators ≡ false
  unfolding matches_stake
  unsigned-matches_stake b slot_time proposer validators v e known keyed =
      ground (arith, unsigned_refused b e)

  unsigned-validate_proposal :
      (b : Block) (engine : TimeWeightedPos floats.Float) (seen : SeenProposals)
      (v : ValidatorStake floats.Float)
      → b.validator_signature ≡ []
      → validator_of floats
          (select_block_proposer floats crypto (slot_of b.timestamp) engine)
          engine.active_validators
        ≡ some v
      → is_empty v.public_key ≡ false
      → (validate_proposal floats crypto b b.timestamp engine seen).1 ≡ false
  unfolding validate_proposal
  unsigned-validate_proposal b engine seen v e known keyed =
      let proposer = select_block_proposer floats crypto (slot_of b.timestamp) engine in
      ground (
        arith,
        unsigned-matches_stake b (slot_of b.timestamp) proposer engine.active_validators v e known
            keyed,
      )

  pub unsigned-can_add_block :
      (now : ℕ) (b : Block) (s : Blockchain floats.Float) (engine : TimeWeightedPos floats.Float)
      (v : ValidatorStake floats.Float)
      → s.consensus_engine ≡ some engine
      → b.validator_signature ≡ []
      → validator_of floats
          (select_block_proposer floats crypto (slot_of b.timestamp) engine)
          engine.active_validators
        ≡ some v
      → is_empty v.public_key ≡ false
      → (can_add_block floats crypto now b s).1 ≡ false
  unfolding can_add_block proposal_accepted
  unsigned-can_add_block now b s engine v present e known keyed =
      ground (arith, unsigned-validate_proposal b engine s.seen_proposals v e known keyed)

  pub slot_of-slot_of : (now : ℕ) → slot_of (slot_of now) ≡ slot_of now
  slot_of-slot_of now = omega arith

  -- The first proposal for a height and a slot is remembered, whether or not it is accepted.
  pub remembered :
      (b : Block) (engine : TimeWeightedPos floats.Float) (s : Blockchain floats.Float)
      (height slot : ℕ)
      → s.consensus_engine ≡ some engine
      → b.height ≡ height
      → slot_of b.timestamp ≡ slot
      → is_empty (select_block_proposer floats crypto slot engine) ≡ false
      → b.validator_address ≡ select_block_proposer floats crypto slot engine
      → find (height, slot) s.seen_proposals ≡ none
      → ((proposal_accepted floats crypto b s).0.consensus_engine ≡ some engine)
        × (find (height, slot) (proposal_accepted floats crypto b s).0.seen_proposals
            ≡ some (block_hash_hex crypto b))
  unfolding proposal_accepted validate_proposal
  remembered b engine s height slot present at_height at_slot named by_proposer unseen =
      let same = ==_refl b.validator_address in
      let key : ℕ × ℕ = (height, slot) in
      let stored = find-insert key key (block_hash_hex crypto b) s.seen_proposals in
      let found = ==_refl key in (ground (arith, same), ground (arith, same, stored, found))

  -- The second, with another hash, costs the proposer half of the stake.
  pub slashed :
      (b : Block) (engine : TimeWeightedPos floats.Float) (s : Blockchain floats.Float)
      (known : Bytes)
      → s.consensus_engine ≡ some engine
      → is_empty (select_block_proposer floats crypto (slot_of b.timestamp) engine) ≡ false
      → b.validator_address ≡ select_block_proposer floats crypto (slot_of b.timestamp) engine
      → find (b.height, slot_of b.timestamp) s.seen_proposals ≡ some known
      → known ≢ block_hash_hex crypto b
      → ((proposal_accepted floats crypto b s).1 ≡ false)
        × ((proposal_accepted floats crypto b s).0.consensus_engine
            ≡ some (slash_validator floats b.validator_address (floats.ratio 1 2) engine))
  unfolding proposal_accepted validate_proposal
  slashed b engine s known present named by_proposer found differs =
      let same = ==_refl b.validator_address in
      ground (arith, same, bytes_beq_iff known (block_hash_hex crypto b))

  -- A block that follows the last one reaches the check of its proposal.
  pub can_add_block_proposal :
      (now : ℕ) (b : Block) (s : Blockchain floats.Float) (latest : Block)
      → get_latest_block floats crypto s ≡ some latest
      → follows floats crypto now (length s.chain) latest b ≡ true
      → ((can_add_block floats crypto now b s).0 ≡ (proposal_accepted floats crypto b s).0)
        × ((proposal_accepted floats crypto b s).1 ≡ false
            → (can_add_block floats crypto now b s).1 ≡ false)
  unfolding can_add_block get_latest_block
  can_add_block_proposal now b s latest last fits = (ground arith, λ refused. ground arith)
