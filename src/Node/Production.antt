-- ===== src/Node/Production.antt =====
-- The blocks that the loop of a node makes, and its own chain: src/mermai_main.cpp.
use mermai_blockchain.Base.{
  ℕ, ◌<◌, ◌≤◌, ◌≡◌, ◌≢◌, refl, ap, ◌∙◌, true, false, none, some, [], arith, length, is_empty,
}
use mermai_blockchain.Base.Key.{Bytes, bytes_key, nat_key, pair_key, ==_refl}
use mermai_blockchain.Base.Map.{find}
use mermai_blockchain.Base.Words.{u32_mod, add32}
use mermai_blockchain.Crypto.{Crypto}
use mermai_blockchain.Floats.{Floats}
use mermai_blockchain.Block.{Block, new_block, verify_time_weight_pos}
use mermai_blockchain.Staking.{ValidatorStake, TimeWeightedPos, validator_of}
use mermai_blockchain.Staking.Engine.{select_block_proposer, slash_validator}
use mermai_blockchain.Proposal.{slot_of, block_hash_hex}
use mermai_blockchain.Chain.{Blockchain, get_latest_block, get_height, follows, can_add_block}
use mermai_blockchain.Chain.Linked.{can_add_block_chain}
use mermai_blockchain.Database.{Statement, Reply}
use mermai_blockchain.Network.Node.{NodeState, accept_block}
use mermai_blockchain.Node.{stamp, proposed_block, offer, produce_turn, produce_block}
use mermai_blockchain.Node.Proposals.{
  unsigned-can_add_block, slot_of-slot_of, remembered, slashed, can_add_block_proposal,
}

module _ (floats : Floats) (crypto : Crypto) {Db : Type 0} (run : Statement → Db → Reply × Db) where
  -- The proposer of the slot of a time.
  abbrev pub proposer_at : ℕ → TimeWeightedPos floats.Float → Bytes
  proposer_at now engine = select_block_proposer floats crypto (slot_of now) engine

  -- A node with a chain and an engine, whose proposer for the slot has a key.
  pub record IsKeyedTurn (now : ℕ) (node : NodeState floats.Float Db) (s : Blockchain floats.Float)
      (engine : TimeWeightedPos floats.Float) (latest : Block) (v : ValidatorStake floats.Float)
      : Type 0 where
    pub on_chain : node.blockchain ≡ some s
    pub present : s.consensus_engine ≡ some engine
    pub last : get_latest_block floats crypto s ≡ some latest
    pub named : is_empty (proposer_at now engine) ≡ false
    pub chosen : validator_of floats (proposer_at now engine) engine.active_validators ≡ some v
    pub keyed : is_empty v.public_key ≡ false

  abbrev pub own_block : ℕ → TimeWeightedPos floats.Float → Block → Blockchain floats.Float → Block
  own_block now engine latest s =
      proposed_block floats crypto run (slot_of now) (proposer_at now engine) engine latest s

  own_block_unsigned :
      (now : ℕ) (engine : TimeWeightedPos floats.Float) (latest : Block)
      (s : Blockchain floats.Float)
      → ((own_block now engine latest s).validator_signature ≡ [])
        × ((own_block now engine latest s).timestamp ≡ slot_of now)
        × ((own_block now engine latest s).height ≡ add32 (get_height floats crypto s) 1)
        × ((own_block now engine latest s).validator_address ≡ proposer_at now engine)
        × ((own_block now engine latest s).prev_block_hash ≡ block_hash_hex crypto latest)
  unfolding proposed_block stamp new_block
  own_block_unsigned now engine latest s = ground arith

  own_block-refused :
      (now : ℕ) (node : NodeState floats.Float Db) (s : Blockchain floats.Float)
      (engine : TimeWeightedPos floats.Float) (latest : Block) (v : ValidatorStake floats.Float)
      → IsKeyedTurn now node s engine latest v
      → (can_add_block floats crypto now (own_block now engine latest s) s).1 ≡ false
  own_block-refused now node s engine latest v t =
      let own = own_block_unsigned now engine latest s in
      unsigned-can_add_block floats crypto now (own_block now engine latest s) s engine v t.present
        own.0 (rw (own.1, slot_of-slot_of floats crypto now) t.chosen) t.keyed

  offer_refused :
      (now : ℕ) (b : Block) (proposer : Bytes) (s : Blockchain floats.Float)
      (node : NodeState floats.Float Db)
      → (can_add_block floats crypto now b s).1 ≡ false
      → offer floats crypto run now b proposer s node
        ≡ (record node { blockchain = some (can_add_block floats crypto now b s).0 }, [])
  unfolding offer accept_block
  offer_refused now b proposer s node refused = rw (refused, offer, accept_block) refl

  produce_turn_offers :
      (now : ℕ) (engine : TimeWeightedPos floats.Float) (s : Blockchain floats.Float)
      (node : NodeState floats.Float Db) (latest : Block)
      → is_empty (proposer_at now engine) ≡ false
      → get_latest_block floats crypto s ≡ some latest
      → produce_turn floats crypto run now engine s node
        ≡ offer floats crypto run now
            (own_block now engine latest s)
            (proposer_at now engine)
            s
            node
  unfolding produce_turn
  produce_turn_offers now engine s node latest named last = simp (named, last)

  produce_block_turn :
      (now : ℕ) (node : NodeState floats.Float Db) (s : Blockchain floats.Float)
      (engine : TimeWeightedPos floats.Float)
      → node.blockchain ≡ some s
      → s.consensus_engine ≡ some engine
      → produce_block floats crypto run now node ≡ produce_turn floats crypto run now engine s node
  unfolding produce_block
  produce_block_turn now node s engine on_chain present = ground arith

  produce_block_refused :
      (now : ℕ) (node : NodeState floats.Float Db) (s : Blockchain floats.Float)
      (engine : TimeWeightedPos floats.Float) (latest : Block) (v : ValidatorStake floats.Float)
      → IsKeyedTurn now node s engine latest v
      → produce_block floats crypto run now node ≡ (
        record node {
          blockchain = some (can_add_block floats crypto now (own_block now engine latest s) s).0;
        },
        [],
      )
  produce_block_refused now node s engine latest v t =
      produce_block_turn now node s engine t.on_chain t.present
      ∙ produce_turn_offers now engine s node latest t.named t.last
      ∙ offer_refused now (own_block now engine latest s) (proposer_at now engine) s node
          (own_block-refused now node s engine latest v t)

  -- The node's own block passes the tests on its place, if the last block is not younger.
  own_block-follows :
      (now : ℕ) (node : NodeState floats.Float Db) (s : Blockchain floats.Float)
      (engine : TimeWeightedPos floats.Float) (latest : Block) (v : ValidatorStake floats.Float)
      → IsKeyedTurn now node s engine latest v
      → length s.chain < u32_mod
      → latest.timestamp ≤ slot_of now
      → is_empty (block_hash_hex crypto latest) ≡ false
      → 0 < v.amount
      → (follows floats crypto now (length s.chain) latest (own_block now engine latest s) ≡ true)
        × ((own_block now engine latest s).height ≡ length s.chain)
  unfolding follows proposed_block stamp new_block verify_time_weight_pos get_height
      get_latest_block
  own_block-follows now node s engine latest v t short old hash staked =
      let same = ==_refl (block_hash_hex crypto latest) in
      (ground (arith, t.last, t.named, t.chosen, same), ground (arith, t.last, t.chosen))

  follows-height :
      (now size : ℕ) (latest b : Block)
      → follows floats crypto now size latest b ≡ true
      → b.height ≡ size
  unfolding follows
  follows-height now size latest b h = ground arith

  latest_of :
      (s after : Blockchain floats.Float) (latest : Block)
      → after.chain ≡ s.chain
      → get_latest_block floats crypto s ≡ some latest
      → get_latest_block floats crypto after ≡ some latest
  unfolding get_latest_block
  latest_of s after latest same last = ground arith

  second_refused :
      (later : ℕ) (after : Blockchain floats.Float) (engine : TimeWeightedPos floats.Float)
      (latest signed : Block) (size slot : ℕ) (known : Bytes)
      → after.consensus_engine ≡ some engine
      → get_latest_block floats crypto after ≡ some latest
      → length after.chain ≡ size
      → find (size, slot) after.seen_proposals ≡ some known
      → is_empty (select_block_proposer floats crypto slot engine) ≡ false
      → follows floats crypto later size latest signed ≡ true
      → slot_of signed.timestamp ≡ slot
      → signed.validator_address ≡ select_block_proposer floats crypto slot engine
      → known ≢ block_hash_hex crypto signed
      → ((can_add_block floats crypto later signed after).1 ≡ false)
        × ((can_add_block floats crypto later signed after).0.consensus_engine
            ≡ some (
                slash_validator floats
                  (select_block_proposer floats crypto slot engine)
                  (floats.ratio 1 2)
                  engine))
  second_refused later after engine latest signed size slot known present last long found named fits
        at_slot by_proposer differs =
      let offered =
        can_add_block_proposal floats crypto later signed after latest last (rw long fits) in
      let punished =
        slashed floats crypto signed engine after known present (rw at_slot named)
          (rw at_slot by_proposer)
          (rw (follows-height later size latest signed fits, at_slot) found) differs in
      (
        offered.1 punished.0,
        ap (λ (r : Blockchain floats.Float). r.consensus_engine) offered.0
            ∙ (punished.1 ∙ rw by_proposer refl),
      )

  -- Let the proposer that is chosen for a slot have a public key and a stake, the last block have a
  -- hash and be no newer than the start of the slot, the chain be shorter than 2^32, and no proposal
  -- for this height and slot be remembered. Then the block that a node makes for the slot is refused
  -- by its own chain: the chain stays as it is and no message is sent. But the hash of that block is
  -- remembered: so a block that the proposer has made for the same slot, with another hash and in its
  -- place in the chain, is then refused as a second proposal, and the proposer loses half of the stake.
  pub produce_block-slashes :
      (now later : ℕ) (node : NodeState floats.Float Db) (s : Blockchain floats.Float)
      (engine : TimeWeightedPos floats.Float) (latest : Block) (v : ValidatorStake floats.Float)
      (signed : Block)
      → IsKeyedTurn now node s engine latest v
      → length s.chain < u32_mod
      → latest.timestamp ≤ slot_of now
      → is_empty (block_hash_hex crypto latest) ≡ false
      → 0 < v.amount
      → find (length s.chain, slot_of now) s.seen_proposals ≡ none
      → follows floats crypto later (length s.chain) latest signed ≡ true
      → slot_of signed.timestamp ≡ slot_of now
      → signed.validator_address ≡ proposer_at now engine
      → block_hash_hex crypto (own_block now engine latest s) ≢ block_hash_hex crypto signed
      → ((produce_block floats crypto run now node).1 ≡ [])
        × (after : Blockchain floats.Float) × ((produce_block floats crypto run now
              node).0.blockchain
            ≡ some after)
        × (after.chain ≡ s.chain)
        × ((can_add_block floats crypto later signed after).1 ≡ false)
        × ((can_add_block floats crypto later signed after).0.consensus_engine
            ≡ some (slash_validator floats (proposer_at now engine) (floats.ratio 1 2) engine))
  produce_block-slashes now later node s engine latest v signed t short old hash staked unseen fits
        slot by_proposer differs =
      let b = own_block now engine latest s in
      let own = own_block_unsigned now engine latest s in
      let after = (can_add_block floats crypto now b s).0 in
      let refused = produce_block_refused now node s engine latest v t in
      let placed = own_block-follows now node s engine latest v t short old hash staked in
      let offered = can_add_block_proposal floats crypto now b s latest t.last placed.0 in
      let same_slot : slot_of b.timestamp ≡ slot_of now =
        ap slot_of own.1 ∙ slot_of-slot_of floats crypto now in
      let kept =
        remembered floats crypto b engine s (length s.chain) (slot_of now) t.present placed.1
          same_slot t.named own.3 unseen in
      let same_chain = can_add_block_chain floats crypto now b s in
      let found =
        ap (λ (r : Blockchain floats.Float). find (length s.chain, slot_of now) r.seen_proposals)
          offered.0
        ∙ kept.1 in
      let second =
        second_refused later after engine latest signed (length s.chain) (slot_of now)
          (block_hash_hex crypto b)
          (ap (λ (r : Blockchain floats.Float). r.consensus_engine) offered.0 ∙ kept.0)
          (latest_of s after latest same_chain t.last) (ap length same_chain) found t.named fits
          slot by_proposer differs in
      (rw refused refl, after, rw refused refl, same_chain, second.0, second.1)
