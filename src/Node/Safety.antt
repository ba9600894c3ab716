-- ===== src/Node/Safety.antt =====
-- What the rounds of a node and the messages of its peers do to its chain.
use mermai_blockchain.Base.{
  ℕ, ◌≤◌, ◌≡◌, refl, sym, subst, ◌∙◌, Bool, Option, none, some, List, [], ◌∷◌, arith, length,
  is_empty, Bool-cases, Option-cases, inl, inr,
}
use mermai_blockchain.Base.Key.{Bytes}
use mermai_blockchain.Crypto.{Crypto}
use mermai_blockchain.Floats.{Floats}
use mermai_blockchain.Block.{Block}
use mermai_blockchain.Staking.{TimeWeightedPos}
use mermai_blockchain.Chain.{Blockchain, get_latest_block}
use mermai_blockchain.Chain.Links.{IsWellFormed}
use mermai_blockchain.Database.{Statement, Reply}
use mermai_blockchain.Network.{P2pMessage, Peer}
use mermai_blockchain.Network.Node.{NodeState, accept_block, handle_message}
use mermai_blockchain.Network.Node.Growth.{accept_block-Grows}
use mermai_blockchain.Network.Node.Safety.{Arrival, handle_all, handle_all-IsWellFormed}
use mermai_blockchain.Staking.Engine.{select_block_proposer}
use mermai_blockchain.Proposal.{slot_of}
use mermai_blockchain.Node.{
  proposed_block, initialize, finalize_shared, offer, produce_turn, produce_block, stop,
}
use mermai_blockchain.Node.Start.{initialize-IsWellFormed}

module _ (floats : Floats) (crypto : Crypto) {Db : Type 0} (run : Statement → Db → Reply × Db) where
  -- What happens to a node: a round of its loop at a time, or a message of a peer at a time.
  pub data Event : Type 0 where
    produces : ℕ → Event
    receives : ℕ → P2pMessage → Peer → Event
    stops : Event

  -- The network has the engine that the chain has.
  abbrev pub engine_of : NodeState floats.Float Db → Option (TimeWeightedPos floats.Float)
  engine_of node = elim node.blockchain [ none ↦ none | some s ↦ s.consensus_engine ]

  unfoldable pub apply : NodeState floats.Float Db → Event → NodeState floats.Float Db
  unfolding produce_block handle_message stop
  apply node (produces now) = (produce_block floats crypto run now node).0
  apply node (receives now msg peer) =
      (handle_message floats crypto run now (engine_of node) msg node peer).node
  apply node stops = stop floats crypto run node

  unfoldable pub apply_all : NodeState floats.Float Db → List Event → NodeState floats.Float Db
  unfolding apply
  apply_all node [] = node
  apply_all node (e ∷ events) = apply_all (apply node e) events

  -- The node has a chain, which is well formed and not shorter than a given one.
  abbrev Continues : Blockchain floats.Float → NodeState floats.Float Db → Type 0
  Continues s node =
      (after : Blockchain floats.Float) × (node.blockchain ≡ some after)
      × IsWellFormed floats crypto after.chain
      × (length s.chain ≤ length after.chain)

  finalize_shared_chain :
      (b : Block) (proposer : Bytes) (s : Blockchain floats.Float)
      → (finalize_shared floats crypto run b proposer s).chain ≡ s.chain
  unfolding finalize_shared
  finalize_shared_chain b proposer s = ground arith

  offer-Continues :
      (now : ℕ) (b : Block) (proposer : Bytes) (s : Blockchain floats.Float)
      (node : NodeState floats.Float Db)
      → IsWellFormed floats crypto s.chain
      → Continues s (offer floats crypto run now b proposer s node).0
  unfolding offer
  offer-Continues now b proposer s node w =
      let r = accept_block floats crypto run now b s node.database in
      let grown = accept_block-Grows floats crypto run now b s node.database w in
      let same = finalize_shared_chain b proposer r.0.0 in
      elim (Bool-cases r.1) [
        | inl accepted ↦
            rw (accepted, offer)
              (
                finalize_shared floats crypto run b proposer r.0.0,
                refl,
                subst (λ chain. IsWellFormed floats crypto chain) (sym same) grown.0,
                rw same grown.1,
              )
        | inr refused ↦ rw (refused, offer) (r.0.0, refl, grown.0, grown.1)
      ]

  produce_turn-Continues :
      (now : ℕ) (engine : TimeWeightedPos floats.Float) (s : Blockchain floats.Float)
      (node : NodeState floats.Float Db)
      → node.blockchain ≡ some s
      → IsWellFormed floats crypto s.chain
      → Continues s (produce_turn floats crypto run now engine s node).0
  unfolding produce_turn
  produce_turn-Continues now engine s node e w =
      let slot_time = slot_of now in
      let proposer = select_block_proposer floats crypto slot_time engine in
      let kept : Continues s node = (s, e, w, omega arith) in
      elim (Bool-cases (is_empty proposer)) [
        | inl nobody ↦ rw (nobody, produce_turn) kept
        | inr somebody ↦ (elim (Option-cases (get_latest_block floats crypto s)) [
          | inl none_yet ↦ rw (somebody, none_yet, produce_turn) kept
          | inr (latest, known) ↦
              rw (somebody, known, produce_turn)
                (offer-Continues now
                  (proposed_block floats crypto run slot_time proposer engine latest s) proposer s
                  node w)
        ])
      ]

  produce_block-Continues :
      (now : ℕ) (node : NodeState floats.Float Db) (s : Blockchain floats.Float)
      → node.blockchain ≡ some s
      → IsWellFormed floats crypto s.chain
      → Continues s (produce_block floats crypto run now node).0
  unfolding produce_block
  produce_block-Continues now node s e w = elim (Option-cases s.consensus_engine) [
    | inl missing ↦ rw (e, missing, produce_block) (s, e, w, omega arith)
    | inr (engine, found) ↦
        rw (e, found, produce_block) (produce_turn-Continues now engine s node e w)
  ]

  stop_blockchain :
      (node : NodeState floats.Float Db)
      → (stop floats crypto run node).blockchain ≡ node.blockchain
  unfolding stop
  stop_blockchain node = ground arith

  apply-Continues :
      (node : NodeState floats.Float Db) (event : Event) (s : Blockchain floats.Float)
      → node.blockchain ≡ some s
      → IsWellFormed floats crypto s.chain
      → Continues s (apply node event)
  unfolding apply handle_all
  apply-Continues node (produces now) s e w = produce_block-Continues now node s e w
  apply-Continues node (receives now msg peer) s e w =
      let arrival : Arrival floats crypto run = record {
        now = now;
        consensus = engine_of node;
        msg = msg;
        peer = peer;
      } in
      handle_all-IsWellFormed floats crypto run (arrival ∷ []) node s e w
  apply-Continues node stops s e w = (s, stop_blockchain node ∙ e, w, omega arith)

  apply_all-Continues :
      (node : NodeState floats.Float Db) (events : List Event) (s : Blockchain floats.Float)
      → node.blockchain ≡ some s
      → IsWellFormed floats crypto s.chain
      → Continues s (apply_all node events)
  unfolding apply_all
  apply_all-Continues node [] s e w = (s, e, w, omega arith)
  apply_all-Continues node (event ∷ events) s e w =
      let (middle, found, formed, longer) = apply-Continues node event s e w in
      let (after, reached, last, more) =
        apply_all-Continues (apply node event) events middle found formed in
      (after, reached, last, omega (arith, longer, more))

  -- From the moment a node is initialized from whatever a database holds, and after any rounds of
  -- its loops and any messages of its peers, in any order, its chain is well formed and not shorter
  -- than the one it started with.
  pub initialize-apply_all-IsWellFormed :
      (now : ℕ) (db : Option (Option Db)) (listening serving : Bool)
      (node : NodeState floats.Float Db) (events : List Event)
      → initialize floats crypto run now db listening serving ≡ some node
      → (start after : Blockchain floats.Float) × (node.blockchain ≡ some start)
        × ((apply_all node events).blockchain ≡ some after)
        × IsWellFormed floats crypto after.chain
        × (length start.chain ≤ length after.chain)
  initialize-apply_all-IsWellFormed now db listening serving node events h =
      let (start, found, formed) =
        initialize-IsWellFormed floats crypto run now db listening serving node h in
      let (after, reached, last, longer) = apply_all-Continues node events start found formed in
      (start, after, found, reached, last, longer)
