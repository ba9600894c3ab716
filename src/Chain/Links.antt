-- ===== src/Chain/Links.antt =====
-- What it is for a chain to be linked, against the checks of src/core/mermai_blockchain.cpp.
use mermai_blockchain.Base.{
  ℕ, suc, ◌+◌, ◌%◌, ◌≤◌, ◌≡◌, subst, true, List, [], ◌∷◌, ◌++◌, arith, length,
}
use mermai_blockchain.Base.Words.{u32_mod}
use mermai_blockchain.Base.Key.{bytes_key, nat_key, bytes_beq_iff}
use mermai_blockchain.Crypto.{Crypto}
use mermai_blockchain.Floats.{Floats}
use mermai_blockchain.Block.{Block, verify_time_weight_pos}
use mermai_blockchain.Proposal.{block_hash_hex}
use mermai_blockchain.Chain.{
  Blockchain, genesis_prev, last_block, valid_body, proposal_accepted, follows, continues,
  validate_rest,
}

module _ (floats : Floats) (crypto : Crypto) where
  -- What a block at a position is to the block before it. Its transactions passed the checks at
  -- some time.
  pub record IsNext (index : ℕ) (previous b : Block) : Type 0 where
    pub position : b.height % u32_mod ≡ index % u32_mod
    pub link : b.prev_block_hash ≡ block_hash_hex crypto previous
    pub later : previous.timestamp ≤ b.timestamp
    pub staked : verify_time_weight_pos b ≡ true
    pub body : (now : ℕ) × (valid_body floats crypto now b ≡ true)

  unfoldable pub IsLinked : ℕ → Block → List Block → Type 0
  IsLinked index previous [] = Unit
  IsLinked index previous (b ∷ blocks) = IsNext index previous b × IsLinked (suc index) b blocks

  -- A chain has a first block, of height 0 and without a predecessor, and the others are linked.
  pub record IsWellFormed (chain : List Block) : Type 0 where
    pub first : Block
    pub rest : List Block
    pub made_of : chain ≡ first ∷ rest
    pub origin : (first.height ≡ 0) × (first.prev_block_hash ≡ genesis_prev)
    pub links : IsLinked 1 first rest

  pub IsLinked-append :
      (index : ℕ) (previous : Block) (blocks : List Block) (b : Block)
      → IsLinked index previous blocks
      → IsNext (index + length blocks) (last_block previous blocks) b
      → IsLinked index previous (blocks ++ (b ∷ []))
  unfolding IsLinked last_block
  IsLinked-append index previous [] b l n = (subst (λ i. IsNext i previous b) (omega arith) n, tt)
  IsLinked-append index previous (c ∷ blocks) b l n = (
    l.0,
    IsLinked-append (suc index) c blocks b l.1
        (subst (λ i. IsNext i (last_block c blocks) b) (omega arith) n),
  )

  continues-IsNext :
      (now index : ℕ) (previous b : Block)
      → continues floats crypto index previous b ≡ true
      → valid_body floats crypto now b ≡ true
      → IsNext index previous b
  unfolding continues
  continues-IsNext now index previous b c v = record {
    position = ground arith;
    link = ground (arith, bytes_beq_iff b.prev_block_hash (block_hash_hex crypto previous));
    later = ground arith;
    staked = ground arith;
    body = (now, v);
  }

  pub follows-IsNext :
      (now index : ℕ) (previous b : Block)
      → follows floats crypto now index previous b ≡ true
      → valid_body floats crypto now b ≡ true
      → IsNext index previous b
  unfolding follows
  follows-IsNext now index previous b c v = record {
    position = ground arith;
    link = ground (arith, bytes_beq_iff b.prev_block_hash (block_hash_hex crypto previous));
    later = ground arith;
    staked = ground arith;
    body = (now, v);
  }

  pub validate_rest-IsLinked :
      (now index : ℕ) (previous : Block) (blocks : List Block) (s : Blockchain floats.Float)
      → (validate_rest floats crypto now index previous blocks s).1 ≡ true
      → IsLinked index previous blocks
  unfolding validate_rest IsLinked
  validate_rest-IsLinked now index previous [] s h = tt
  validate_rest-IsLinked now index previous (b ∷ blocks) s h = (
    continues-IsNext now index previous b (ground arith) (ground arith),
    validate_rest-IsLinked now (suc index) b blocks (proposal_accepted floats crypto b s).0
        (ground arith),
  )
