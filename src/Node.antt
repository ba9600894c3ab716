-- ===== src/Node.antt =====
-- `MermaiNode` of src/mermai_main.cpp: how a node is put together from what is stored, and the
-- loop that produces blocks. The engine is shared by pointer with the chain, whose field it is.
-- The threads of a node run their rounds in some order; a round is a step here.
pub mod Start
pub mod Safety
pub mod Proposals
pub mod Production
mod Tests
use mermai_blockchain.Base.{
  ℕ, zero, suc, ◌+◌, ◌-◌, ◌%◌, Bool, true, false, not, Option, none, some, List, [], ◌∷◌, ltb,
  is_empty, if◌then◌else◌,
}
use mermai_blockchain.Base.Words.{add32}
use mermai_blockchain.Base.Key.{Bytes}
use mermai_blockchain.Crypto.{Crypto}
use mermai_blockchain.Floats.{Floats}
use mermai_blockchain.Block.{Block, new_block}
use mermai_blockchain.Staking.{
  ValidatorStake, TimeWeightedPos, new_pos, validator_of, restore_validator,
}
use mermai_blockchain.Staking.Engine.{select_block_proposer, finalize_block}
use mermai_blockchain.Proposal.{slot_of, block_hash_hex}
use mermai_blockchain.Quorum.{QuorumCollector, new_collector}
use mermai_blockchain.Chain.{
  Blockchain, new_blockchain, set_consensus_engine, replace_chain_if_longer, get_block,
  get_latest_block, get_height,
}
use mermai_blockchain.Database.{Statement, Reply}
use mermai_blockchain.Database.Records.{get_block_by_height, get_latest_block_height, sync}
use mermai_blockchain.Database.Validators.{get_all_validators}
use mermai_blockchain.Network.{P2pMessage}
use mermai_blockchain.Network.Node.{NodeState, accept_block, block_message, sync_message}

module _ (floats : Floats) (crypto : Crypto) {Db : Type 0} (run : Statement → Db → Reply × Db) where
  -- The loop of `initialize` over the stored validators: none is the refusal of one.
  unfoldable pub restore_validators :
      List (ValidatorStake floats.Float)
      → TimeWeightedPos floats.Float
      → Option (TimeWeightedPos floats.Float)
  restore_validators [] engine = some engine
  restore_validators (v ∷ validators) engine =
      let r = restore_validator floats v engine in
      if r.1 then restore_validators validators r.0 else none

  -- The loop over the stored blocks, from a height on: none is a missing block.
  unfoldable pub load_blocks : ℕ → ℕ → Option Db → Option (List Block) × Option Db
  load_blocks height zero db = (some [], db)
  load_blocks height (suc count) db =
      let r = get_block_by_height run height db in
      let rest = load_blocks (height + 1) count r.1 in
      elim r.0 [
        | none ↦ (none, r.1)
        | some block ↦ (elim rest.0 [
          | none ↦ (none, rest.1)
          | some blocks ↦ (some (block ∷ blocks), rest.1)
        ])
      ]

  -- The stored chain is put in the place of the one that holds the genesis block.
  unfoldable pub restore_chain :
      ℕ → Blockchain floats.Float → Option Db → Option (Blockchain floats.Float) × Option Db
  unfolding load_blocks
  restore_chain now s db =
      let stored_height = get_latest_block_height run db in
      let loaded = load_blocks 1 stored_height.0 stored_height.1 in
      if not (ltb 0 stored_height.0) then (some s, stored_height.1) else elim loaded.0 [
        | none ↦ (none, loaded.1)
        | some blocks ↦ (elim (get_block floats crypto 0 s) [
          | none ↦ (none, loaded.1)
          | some first ↦
              let r = replace_chain_if_longer floats crypto now (first ∷ blocks) s in
              (if r.1 then some r.0 else none, loaded.1)
        ])
      ]

  -- `initialize`, with the database it opened, if it could, and whether the two servers could be
  -- started. The content of a genesis file is read and not used.
  unfoldable pub initialize :
      ℕ → Option (Option Db) → Bool → Bool → Option (NodeState floats.Float Db)
  unfolding restore_validators restore_chain
  initialize now none listening serving = none
  initialize now (some db) listening serving =
      let stored = get_all_validators floats run db in
      elim (restore_validators stored.0 (new_pos floats)) [
        | none ↦ none
        | some engine ↦
            let chain =
              set_consensus_engine floats crypto (some engine)
                (new_blockchain floats crypto none) in
            let restored = restore_chain now chain stored.1 in
            (elim restored.0 [
              | none ↦ none
              | some s ↦
                  if listening
                  then if serving
                    then some (record {
                      blockchain = some s;
                      database = some restored.1;
                      quorum = some new_collector;
                    })
                    else none
                  else none
            ])
      ]

  -- The fields that are copied from the proposer's entry, if there is one.
  unfoldable pub stamp : ℕ → Bytes → List (ValidatorStake floats.Float) → Block → Block
  stamp slot_time proposer validators b = elim (validator_of floats proposer validators) [
    | none ↦ b
    | some v ↦ record b {
      validator_stake = v.amount;
      validator_age = if ltb v.lock_time slot_time then slot_time - v.lock_time else 0;
      validator_public_key = v.public_key;
    }
  ]

  -- The block that the loop makes on the latest one. It has no transactions and no signature.
  unfoldable pub proposed_block :
      ℕ → Bytes → TimeWeightedPos floats.Float → Block → Blockchain floats.Float → Block
  unfolding stamp
  proposed_block slot_time proposer engine latest s =
      stamp slot_time proposer engine.active_validators
        (record (new_block slot_time (add32 (get_height floats crypto s) 1)) {
          prev_block_hash = block_hash_hex crypto latest;
          validator_address = proposer;
        })

  -- `consensus->finalize_block` on the shared engine.
  unfoldable pub finalize_shared : Block → Bytes → Blockchain floats.Float → Blockchain floats.Float
  finalize_shared b proposer s = elim s.consensus_engine [
    | none ↦ s
    | some engine ↦ record s { consensus_engine = some (finalize_block floats b proposer engine) }
  ]

  -- The block is offered to the chain and the database; if both take it, the proposer is rewarded
  -- and the block is sent to every peer.
  unfoldable pub offer :
      ℕ
      → Block
      → Bytes
      → Blockchain floats.Float
      → NodeState floats.Float Db
      → NodeState floats.Float Db × List P2pMessage
  unfolding finalize_shared
  offer now b proposer s node =
      let r = accept_block floats crypto run now b s node.database in
      if r.1
      then (
        record node { blockchain = some (finalize_shared b proposer r.0.0); database = r.0.1 },
        block_message b ∷ [],
      )
      else (record node { blockchain = some r.0.0; database = r.0.1 }, [])

  -- What a round does with the engine and the chain of the node.
  unfoldable pub produce_turn :
      ℕ
      → TimeWeightedPos floats.Float
      → Blockchain floats.Float
      → NodeState floats.Float Db
      → NodeState floats.Float Db × List P2pMessage
  unfolding proposed_block offer
  produce_turn now engine s node =
      let slot_time = slot_of now in
      let proposer = select_block_proposer floats crypto slot_time engine in
      if is_empty proposer then (node, []) else elim (get_latest_block floats crypto s) [
        | none ↦ (node, [])
        | some latest ↦
            offer now (proposed_block slot_time proposer engine latest s) proposer s node
      ]

  -- A round of `consensus_loop` at the time `now`, with the messages sent to every peer. After
  -- `initialize` there are a chain and an engine.
  unfoldable pub produce_block :
      ℕ → NodeState floats.Float Db → NodeState floats.Float Db × List P2pMessage
  unfolding produce_turn
  produce_block now node = elim node.blockchain [
    | none ↦ (node, [])
    | some s ↦ (elim s.consensus_engine [
      | none ↦ (node, [])
      | some engine ↦ produce_turn now engine s node
    ])
  ]

  -- A round of `network_sync_loop`: what is sent to every peer.
  unfoldable pub sync_round : List P2pMessage
  sync_round = sync_message ∷ []

  -- `stop`, which saves the journal of the database.
  unfoldable pub stop : NodeState floats.Float Db → NodeState floats.Float Db
  stop node = elim node.database [
    | none ↦ node
    | some db ↦ record node { database = some (sync run db).1 }
  ]
