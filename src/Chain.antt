-- ===== src/Chain.antt =====
-- `mermai_blockchain`: include/mermai/mermai_blockchain.hpp and src/core/mermai_blockchain.cpp.
-- The checks of a block reach the consensus engine through a const_cast and the validator's static
-- map, so both are part of the state that they change. A null block pointer, which each method
-- refuses, has no counterpart. The system clock of a call is its argument `now`.
pub mod Links
pub mod Linked
mod Tests
use mermai_blockchain.Base.{
  ℕ, zero, suc, ◌+◌, ◌-◌, ◌%◌, Bool, true, false, ◌&&◌, ◌||◌, not, Option, none, some, List, [],
  ◌∷◌, ◌++◌, ltb, leb, length, get_elem?, is_empty, if◌then◌else◌, replicate,
}
use mermai_blockchain.Base.Words.{u32_mod}
use mermai_blockchain.Base.Key.{Bytes, bytes_key, nat_key, ◌==◌}
use mermai_blockchain.Base.Set.{member}
use mermai_blockchain.Crypto.{Crypto}
use mermai_blockchain.Floats.{Floats}
use mermai_blockchain.Wire.{max_block_transactions}
use mermai_blockchain.Transaction.{Transaction}
use mermai_blockchain.Transaction.Verify.{verify_transaction}
use mermai_blockchain.Merkle.{calculate_tree_hash}
use mermai_blockchain.Block.{Block, new_block, verify_time_weight_pos}
use mermai_blockchain.Staking.{TimeWeightedPos}
use mermai_blockchain.Proposal.{SeenProposals, block_hash_hex, validate_proposal}

-- 64 digits '0'.
abbrev pub genesis_prev : Bytes
genesis_prev = replicate 64 b'0'

-- No engine is the null pointer.
pub record Blockchain (F : Type 0) : Type 0 where
  pub chain : List Block
  pub consensus_engine : Option (TimeWeightedPos F)
  pub seen_proposals : SeenProposals

-- The genesis block of the constructor.
unfoldable pub genesis : Block
genesis = record (new_block 0 0) { prev_block_hash = genesis_prev; timestamp = 1640000000 }

-- `chain.back()`: the last block, given the first and those after it.
unfoldable pub last_block : Block → List Block → Block
last_block b [] = b
last_block b (c ∷ blocks) = last_block c blocks

-- The two conditions on the Merkle root.
unfoldable pub has_merkle_root : Crypto → Block → Bool
has_merkle_root crypto b =
    if is_empty b.transactions
    then is_empty b.merkle_root
    else b.merkle_root == calculate_tree_hash crypto b.transactions

-- The loop over the transactions of a block, at the time `now`.
unfoldable pub valid_transactions : Crypto → ℕ → List Bytes → List Transaction → Bool
valid_transactions crypto now ids [] = true
valid_transactions crypto now ids (tx ∷ txs) =
    if not (verify_transaction crypto now tx)
    then false
    else if member tx.id ids
    then false
    else valid_transactions crypto now (tx.id ∷ ids) txs

module _ (floats : Floats) (crypto : Crypto) where
  unfoldable pub new_blockchain : Option (TimeWeightedPos floats.Float) → Blockchain floats.Float
  unfolding genesis
  new_blockchain engine = record {
    chain = genesis ∷ [];
    consensus_engine = engine;
    seen_proposals = [];
  }

  unfoldable pub set_consensus_engine :
      Option (TimeWeightedPos floats.Float) → Blockchain floats.Float → Blockchain floats.Float
  set_consensus_engine engine s = record s { consensus_engine = engine }

  -- `consensus_engine && !validate_proposal(…)`, negated.
  unfoldable pub proposal_accepted :
      Block → Blockchain floats.Float → Blockchain floats.Float × Bool
  proposal_accepted b s = elim s.consensus_engine [
    | none ↦ (s, true)
    | some engine ↦
        let result = validate_proposal floats crypto b b.timestamp engine s.seen_proposals in
        (record s { consensus_engine = some result.0.0; seen_proposals = result.0.1 }, result.1)
  ]

  -- The first tests of `can_add_block`; the last block stands for `chain.back()`.
  unfoldable pub follows : ℕ → ℕ → Block → Block → Bool
  follows now size last b =
      b.height == size
      && (not (is_empty b.prev_block_hash)
          && (b.prev_block_hash == block_hash_hex crypto last
              && (leb last.timestamp b.timestamp
                  && (leb b.timestamp (now + 120) && verify_time_weight_pos b))))

  -- The last tests, which the candidate chains of `replace_chain_if_longer` meet as well.
  unfoldable pub valid_body : ℕ → Block → Bool
  unfolding has_merkle_root valid_transactions
  valid_body now b =
      leb (length b.transactions) max_block_transactions
      && (has_merkle_root crypto b && valid_transactions crypto now [] b.transactions)

  -- An empty chain has no last block: the code never makes one.
  unfoldable pub can_add_block :
      ℕ → Block → Blockchain floats.Float → Blockchain floats.Float × Bool
  unfolding follows proposal_accepted valid_body last_block
  can_add_block now b s = elim s.chain [
    | [] ↦ (s, false)
    | first ∷ rest ↦
        if not (follows now (length s.chain) (last_block first rest) b)
        then (s, false)
        else let result = proposal_accepted b s in (result.0, result.1 && valid_body now b)
  ]

  unfoldable pub add_block : ℕ → Block → Blockchain floats.Float → Blockchain floats.Float × Bool
  unfolding can_add_block
  add_block now b s =
      let result = can_add_block now b s in
      if result.1
      then (record result.0 { chain = result.0.chain ++ (b ∷ []) }, true)
      else (result.0, false)

  -- The tests on the first block of a candidate chain.
  unfoldable pub valid_first : ℕ → Block → Bool
  unfolding valid_body
  valid_first now b = b.height == 0 && (b.prev_block_hash == genesis_prev && valid_body now b)

  -- The tests on a later one before the proposal is looked at.
  unfoldable pub continues : ℕ → Block → Block → Bool
  continues index previous b =
      b.height == index % u32_mod
      && (b.prev_block_hash == block_hash_hex crypto previous
          && (leb previous.timestamp b.timestamp
              && (verify_time_weight_pos b && leb (length b.transactions) max_block_transactions)))

  -- The loop over the blocks after the first.
  unfoldable pub validate_rest :
      ℕ → ℕ → Block → List Block → Blockchain floats.Float → Blockchain floats.Float × Bool
  unfolding continues proposal_accepted valid_body
  validate_rest now index previous [] s = (s, true)
  validate_rest now index previous (b ∷ blocks) s =
      let result = proposal_accepted b s in
      let rest = validate_rest now (suc index) b blocks result.0 in
      if not (continues index previous b)
      then (s, false)
      else if not (result.1 && valid_body now b)
      then (result.0, false)
      else rest

  unfoldable pub replace_chain_if_longer :
      ℕ → List Block → Blockchain floats.Float → Blockchain floats.Float × Bool
  unfolding valid_first validate_rest
  replace_chain_if_longer now candidate_chain s = elim candidate_chain [
    | [] ↦ (s, false)
    | first ∷ blocks ↦
        let result = validate_rest now 1 first blocks s in
        if leb (length (first ∷ blocks)) (length s.chain)
        then (s, false)
        else if not (valid_first now first)
        then (s, false)
        else if result.1
        then (record result.0 { chain = first ∷ blocks }, true)
        else (result.0, false)
  ]

  unfoldable pub get_block : ℕ → Blockchain floats.Float → Option Block
  get_block height s = get_elem? s.chain height

  unfoldable pub get_latest_block : Blockchain floats.Float → Option Block
  get_latest_block s = elim s.chain [ [] ↦ none | first ∷ rest ↦ some (last_block first rest) ]

  unfoldable pub get_height : Blockchain floats.Float → ℕ
  get_height s = if is_empty s.chain then 0 else (length s.chain - 1) % u32_mod

  -- The loop of `is_chain_valid`.
  unfoldable pub linked : Block → List Block → Bool
  linked previous [] = true
  linked previous (b ∷ blocks) =
      if not (b.prev_block_hash == block_hash_hex crypto previous)
      then false
      else if not (verify_time_weight_pos b)
      then false
      else linked b blocks

  unfoldable pub is_chain_valid : List Block → Bool
  unfolding linked
  is_chain_valid [] = true
  is_chain_valid (first ∷ blocks) = linked first blocks

  unfoldable pub is_valid : Blockchain floats.Float → Bool
  unfolding is_chain_valid
  is_valid s = is_chain_valid s.chain

  -- The calls that change the chain, with the time each is made at.
  pub data Call : Type 0 where
    adds : ℕ → Block → Call
    replaces : ℕ → List Block → Call
    sets_engine : Option (TimeWeightedPos floats.Float) → Call

  unfoldable pub apply : Blockchain floats.Float → Call → Blockchain floats.Float
  unfolding add_block replace_chain_if_longer set_consensus_engine
  apply s (adds now b) = (add_block now b s).0
  apply s (replaces now candidate) = (replace_chain_if_longer now candidate s).0
  apply s (sets_engine engine) = set_consensus_engine engine s

  unfoldable pub run : Blockchain floats.Float → List Call → Blockchain floats.Float
  unfolding apply
  run s [] = s
  run s (c ∷ cs) = run (apply s c) cs
