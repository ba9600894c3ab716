-- ===== src/Network/Node/Safety.antt =====
-- The chain of a node through the messages it handles: src/network/mermai_network.cpp.
use mermai_blockchain.Base.{
  ℕ, ◌+◌, ◌≤◌, ◌≡◌, sym, subst, false, Option, none, some, List, [], ◌∷◌, arith, drop, length,
  is_empty, leb, Bool-cases, Option-cases, inl, inr, ◌⊎◌,
}
use mermai_blockchain.Base.Words.{add32}
use mermai_blockchain.Base.Key.{Bytes, nat_key, ◌==◌}
use mermai_blockchain.Crypto.{Crypto}
use mermai_blockchain.Floats.{Floats}
use mermai_blockchain.Wire.{Result, ok, err}
use mermai_blockchain.Block.{Block, deserialize_block}
use mermai_blockchain.Staking.{TimeWeightedPos}
use mermai_blockchain.Chain.{Blockchain, get_height}
use mermai_blockchain.Chain.Links.{IsWellFormed}
use mermai_blockchain.Database.{Statement, Reply}
use mermai_blockchain.Network.{
  P2pMessage, Peer, decode_chain_payload, get_blocks_type, blocks_type, block_type,
  new_transaction_type, block_vote_type,
}
use mermai_blockchain.Network.Node.{
  NodeState, Handled, penalised, extends_local, accept_block, handle_candidate, handle_blocks,
  handle_block, handle_transaction, handle_vote, handle_message,
}
use mermai_blockchain.Network.Node.Growth.{
  Grows, accept_block-Grows, accept_blocks-Grows, GrowsIn, IsSound, kept-GrowsIn, replace-Grows,
}

module _ (floats : Floats) (crypto : Crypto) {Db : Type 0} (run : Statement → Db → Reply × Db) where
  handle_candidate-GrowsIn :
      (now : ℕ) (candidate : List Block) (s : Blockchain floats.Float)
      (node : NodeState floats.Float Db) (peer : Peer)
      → node.blockchain ≡ some s
      → IsWellFormed floats crypto s.chain
      → GrowsIn floats crypto run
          (some s)
          (handle_candidate floats crypto run now candidate s node peer).node.blockchain
  unfolding handle_candidate
  handle_candidate-GrowsIn now candidate s node peer e w =
      let local_height = get_height floats crypto s in
      let kept : GrowsIn floats crypto run (some s) node.blockchain = rw e (w, omega arith) in
      elim (Option-cases node.database) [
        | inl missing ↦
            rw (missing, handle_candidate) (replace-Grows floats crypto run now candidate s w)
        | inr (db, found) ↦ (elim (Bool-cases (leb (length candidate) (add32 local_height 1))) [
          | inl short ↦ rw (found, short, handle_candidate) kept
          | inr long ↦
              (elim (Bool-cases
                (extends_local floats crypto run 0 (local_height + 1) candidate s)) [
                  | inr differs ↦ rw (found, long, differs, handle_candidate) kept
                  | inl extends ↦
                      rw (found, long, extends, handle_candidate)
                        (accept_blocks-Grows floats crypto run now
                          (drop (local_height + 1) candidate) s (some db) w)
                ])
        ])
      ]

  handle_blocks-GrowsIn :
      (now : ℕ) (payload : Bytes) (node : NodeState floats.Float Db) (peer : Peer)
      → IsSound floats crypto run node.blockchain
      → GrowsIn floats crypto run node.blockchain
          (handle_blocks floats crypto run now payload node peer).node.blockchain
  unfolding handle_blocks
  handle_blocks-GrowsIn now payload node peer w = elim (Option-cases node.blockchain) [
    | inl missing ↦ rw (missing, handle_blocks) (rw missing tt)
    | inr (s, found) ↦ (elim (Bool-cases (is_empty (decode_chain_payload payload))) [
      | inl empty ↦
          rw (found, empty, handle_blocks)
            (rw found (kept-GrowsIn floats crypto run (some s) (rw found at w)))
      | inr full ↦
          rw (found, full, handle_blocks)
            (handle_candidate-GrowsIn now (decode_chain_payload payload) s node peer found
              (rw found at w))
    ])
  ]

  handle_block-GrowsIn :
      (now : ℕ) (payload : Bytes) (node : NodeState floats.Float Db) (peer : Peer)
      → IsSound floats crypto run node.blockchain
      → GrowsIn floats crypto run node.blockchain
          (handle_block floats crypto run now payload node peer).node.blockchain
  unfolding handle_block
  handle_block-GrowsIn now payload node peer w =
      received (deserialize_block payload) (Option-cases node.blockchain)
    where
      received :
          (read : Result Block)
          → (node.blockchain ≡ none) ⊎ ((s : Blockchain floats.Float) × (node.blockchain ≡ some s))
          → GrowsIn floats crypto run node.blockchain
              (elim read as (λ _. Handled floats.Float Db) [
                | err reason ↦ penalised floats crypto run node peer false
                | ok block ↦ (elim node.blockchain as (λ _. Handled floats.Float Db) [
                  | none ↦ penalised floats crypto run node peer false
                  | some s ↦
                      penalised floats crypto run
                        (record node {
                          blockchain =
                              some (accept_block floats crypto run now block s node.database).0.0;
                          database = (accept_block floats crypto run now block s node.database).0.1;
                        })
                        peer
                        (accept_block floats crypto run now block s node.database).1
                ])
              ]).node.blockchain
      received (err reason) known = kept-GrowsIn floats crypto run node.blockchain w
      received (ok block) (inl missing) = rw missing (rw missing tt)
      received (ok block) (inr (s, found)) =
          rw found (accept_block-Grows floats crypto run now block s node.database (rw found at w))

  handle_transaction_blockchain :
      (now : ℕ) (payload : Bytes) (node : NodeState floats.Float Db)
      → (handle_transaction floats crypto run now payload node).blockchain ≡ node.blockchain
  unfolding handle_transaction
  handle_transaction_blockchain now payload node = ground arith

  handle_vote_blockchain :
      (consensus : Option (TimeWeightedPos floats.Float)) (payload : Bytes)
      (node : NodeState floats.Float Db)
      → (handle_vote floats crypto run consensus payload node).blockchain ≡ node.blockchain
  unfolding handle_vote
  handle_vote_blockchain consensus payload node = ground arith

  handle_message-GrowsIn :
      (now : ℕ) (consensus : Option (TimeWeightedPos floats.Float)) (msg : P2pMessage)
      (node : NodeState floats.Float Db) (peer : Peer)
      → IsSound floats crypto run node.blockchain
      → GrowsIn floats crypto run node.blockchain
          (handle_message floats crypto run now consensus msg node peer).node.blockchain
  unfolding handle_message
  handle_message-GrowsIn now consensus msg node peer w =
      let kept = kept-GrowsIn floats crypto run node.blockchain w in
      let transaction_kept : GrowsIn floats crypto run node.blockchain
          (handle_transaction floats crypto run now msg.payload node).blockchain =
        rw (handle_transaction_blockchain now msg.payload node) kept in
      let vote_kept : GrowsIn floats crypto run node.blockchain
          (handle_vote floats crypto run consensus msg.payload node).blockchain =
        rw (handle_vote_blockchain consensus msg.payload node) kept in
      elim (Bool-cases (msg.type == get_blocks_type)) [
        | inl asks ↦ rw (asks, handle_message) kept
        | inr t0 ↦ (elim (Bool-cases (msg.type == blocks_type)) [
          | inl blocks ↦
              rw (t0, blocks, handle_message) (handle_blocks-GrowsIn now msg.payload node peer w)
          | inr t1 ↦ (elim (Bool-cases (msg.type == block_type)) [
            | inl block ↦
                rw (t0, t1, block, handle_message)
                  (handle_block-GrowsIn now msg.payload node peer w)
            | inr t2 ↦ (elim (Bool-cases (msg.type == new_transaction_type)) [
              | inl transaction ↦ rw (t0, t1, t2, transaction, handle_message) transaction_kept
              | inr t3 ↦ (elim (Bool-cases (msg.type == block_vote_type)) [
                | inl vote ↦ rw (t0, t1, t2, t3, vote, handle_message) vote_kept
                | inr t4 ↦ rw (t0, t1, t2, t3, t4, handle_message) kept
              ])
            ])
          ])
        ])
      ]

  -- A message with the clock, the engine and the peer it meets.
  pub record Arrival : Type 0 where
    pub now : ℕ
    pub consensus : Option (TimeWeightedPos floats.Float)
    pub msg : P2pMessage
    pub peer : Peer

  unfoldable pub handle_all : NodeState floats.Float Db → List Arrival → NodeState floats.Float Db
  unfolding handle_message
  handle_all node [] = node
  handle_all node (a ∷ arrivals) =
      handle_all (handle_message floats crypto run a.now a.consensus a.msg node a.peer).node
        arrivals

  -- However many messages a node handles, with whatever bytes, from whatever peers, in whatever order:
  -- if its chain is well formed it stays so, and it never becomes shorter.
  pub handle_all-IsWellFormed :
      (arrivals : List Arrival) (node : NodeState floats.Float Db) (s : Blockchain floats.Float)
      → node.blockchain ≡ some s
      → IsWellFormed floats crypto s.chain
      → (after : Blockchain floats.Float) × ((handle_all node arrivals).blockchain ≡ some after)
        × IsWellFormed floats crypto after.chain
        × (length s.chain ≤ length after.chain)
  unfolding handle_all
  handle_all-IsWellFormed [] node s e w = (s, e, w, omega arith)
  handle_all-IsWellFormed (a ∷ arrivals) node s e w =
      let next = (handle_message floats crypto run a.now a.consensus a.msg node a.peer).node in
      let grown : GrowsIn floats crypto run (some s) next.blockchain =
        subst (λ b. GrowsIn floats crypto run b next.blockchain) e
          (handle_message-GrowsIn a.now a.consensus a.msg node a.peer
            (subst (λ b. IsSound floats crypto run b) (sym e) w)) in
      elim (Option-cases next.blockchain) [
        | inl missing ↦ absurd (subst (λ b. GrowsIn floats crypto run (some s) b) missing grown)
        | inr (middle, found) ↦
            let step : Grows floats crypto run s middle =
              subst (λ b. GrowsIn floats crypto run (some s) b) found grown in
            let (after, reached, formed, longer) =
              handle_all-IsWellFormed arrivals next middle found step.0 in
            (after, reached, formed, omega (arith, step.1, longer))
      ]
