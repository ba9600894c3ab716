-- ===== src/Rpc/Server/Preserved.antt =====
-- What a request leaves as it was, and what it preserves: the parts that the single methods keep.
use mermai_blockchain.Base.{
  ℕ, ◌≡◌, refl, sym, subst, ◌||◌, not, Option, none, some, List, arith, ltb, is_empty, Bool-cases,
  Option-cases, inl, inr, ◌⊎◌,
}
use mermai_blockchain.Base.Key.{Bytes}
use mermai_blockchain.Base.Text.{text}
use mermai_blockchain.Crypto.{Crypto}
use mermai_blockchain.Floats.{Floats}
use mermai_blockchain.Block.{Block}
use mermai_blockchain.Staking.{TimeWeightedPos, register_validator}
use mermai_blockchain.Staking.Roll.{registered-IsRoll}
use mermai_blockchain.Staking.Addresses.{IsRoll}
use mermai_blockchain.Quorum.Votes.{HoldsBallots}
use mermai_blockchain.Chain.{Blockchain}
use mermai_blockchain.Database.{Statement, Reply}
use mermai_blockchain.Rpc.{request_string, request_number, hex_bytes}
use mermai_blockchain.Rpc.Server.{Machine}
use mermai_blockchain.Network.Node.{NodeState}
use mermai_blockchain.Rpc.Server.State.{Served, engine_of, asks}
use mermai_blockchain.Rpc.Server.Lookup.{get_block_count, get_block_at}
use mermai_blockchain.Rpc.Server.Change.{
  send_transaction, deploy_contract, call_contract, registered_node, register, serve_registration,
}

module _ (floats : Floats) (crypto : Crypto) {Db : Type 0} (run : Statement → Db → Reply × Db) where
  abbrev State : Type 0
  State = NodeState floats.Float Db

  -- The chain, with its engine, and the votes are as they were.
  abbrev pub IsKept : State → State → Type 0
  IsKept node after = (after.blockchain ≡ node.blockchain) × (after.quorum ≡ node.quorum)

  asks-IsKept :
      (node : State) (query : Option Db → Bytes × Option Db) → IsKept node (asks node query).node
  asks-IsKept node query = ground arith

  pub get_block_count-IsKept :
      (node : State) → IsKept node (get_block_count floats crypto run node).node
  unfolding get_block_count
  get_block_count-IsKept node = ground arith

  pub get_block_at-IsKept :
      (height : ℕ) (node : State) → IsKept node (get_block_at floats crypto run height node).node
  unfolding get_block_at
  get_block_at-IsKept height node = ground arith

  pub send_transaction-IsKept :
      (now : ℕ) (peers : Option ℕ) (body : Bytes) (node : State)
      → IsKept node (send_transaction floats crypto run now peers body node).node
  unfolding send_transaction
  send_transaction-IsKept now peers body node = ground arith

  pub deploy_contract-IsKept :
      (body : Bytes) (node : State) → IsKept node (deploy_contract floats crypto run body node).node
  unfolding deploy_contract
  deploy_contract-IsKept body node = ground arith

  pub call_contract-IsKept :
      (machine : Machine) (body : Bytes) (node : State)
      → IsKept node (call_contract floats crypto run machine body node).node
  unfolding call_contract
  call_contract-IsKept machine body node = ground arith

  abbrev blocks_of : State → Option (List Block)
  blocks_of node = elim node.blockchain [ none ↦ none | some s ↦ some s.chain ]

  -- The engine's validators have distinct addresses, which are not empty.
  abbrev HasRoll : State → Type 0
  HasRoll node = elim (engine_of node) [
    | none ↦ Unit
    | some engine ↦ IsRoll floats engine.active_validators
  ]

  -- The votes that are counted are ballots.
  abbrev HasBallots : State → Type 0
  HasBallots node = elim node.quorum [ none ↦ Unit | some q ↦ HoldsBallots crypto q ]

  pub record Preserves (node after : State) : Type 0 where
    pub blocks : blocks_of after ≡ blocks_of node
    pub roll : HasRoll node → HasRoll after
    pub ballots : HasBallots node → HasBallots after

  pub kept-Preserves : (node after : State) → IsKept node after → Preserves node after
  kept-Preserves node after (b, q) = record {
    blocks = rw b refl;
    roll = λ r. rw b r;
    ballots = λ v. rw q v;
  }

  pub asks-Preserves :
      (node : State) (query : Option Db → Bytes × Option Db) → Preserves node (asks node query).node
  asks-Preserves node query = kept-Preserves node (asks node query).node (asks-IsKept node query)

  registered_blockchain :
      (address : Bytes) (s : Blockchain floats.Float) (engine : TimeWeightedPos floats.Float)
      (node : State)
      → ((registered_node floats crypto run address s engine node).blockchain
          ≡ some (record s { consensus_engine = some engine }))
        × ((registered_node floats crypto run address s engine node).quorum ≡ node.quorum)
  unfolding registered_node
  registered_blockchain address s engine node = ground arith

  registered-Preserves :
      (address : Bytes) (s : Blockchain floats.Float) (engine : TimeWeightedPos floats.Float)
      (node : State)
      → node.blockchain ≡ some s
      → (HasRoll node → IsRoll floats engine.active_validators)
      → Preserves node (registered_node floats crypto run address s engine node)
  registered-Preserves address s engine node present rolled =
      let after = registered_blockchain address s engine node in
      record {
        blocks = rw (after.0, present) refl;
        roll = λ r. rw after.0 (rolled r);
        ballots = λ v. rw after.1 v;
      }

  register-Preserves :
      (now : ℕ) (body : Bytes) (s : Blockchain floats.Float) (engine : TimeWeightedPos floats.Float)
      (node : State)
      → node.blockchain ≡ some s
      → s.consensus_engine ≡ some engine
      → Preserves node (register floats crypto run now body s engine node).node
  unfolding register
  register-Preserves now body s engine node present found =
      let address = request_string body (text "address") in
      let stake = request_number body (text "stake") in
      let key = hex_bytes (request_string body (text "public_key")) in
      let r = register_validator floats crypto now address stake key engine in
      let rolled : HasRoll node → IsRoll floats r.0.active_validators = λ roll.
        registered-IsRoll floats crypto now address stake key engine
          (rw (present, found) at roll) in
      elim (Bool-cases (is_empty address || (ltb stake 1000000 || not r.1))) [
        | inl refused ↦ rw (refused, register) (kept-Preserves node node (refl, refl))
        | inr accepted ↦
            rw (accepted, register) (registered-Preserves address s r.0 node present rolled)
      ]

  serve_registration_cases :
      (now : ℕ) (body : Bytes) (node : State)
      → IsKept node (serve_registration floats crypto run now body node).node
        ⊎ ((s : Blockchain floats.Float) × (engine : TimeWeightedPos floats.Float)
            × (node.blockchain ≡ some s)
            × (s.consensus_engine ≡ some engine)
            × (serve_registration floats crypto run now body node
                ≡ register floats crypto run now body s engine node))
  unfolding serve_registration
  serve_registration_cases now body node = elim (Option-cases node.blockchain) [
    | inl missing ↦ inl (ground (arith, missing))
    | inr (s, present) ↦ (elim (Option-cases s.consensus_engine) [
      | inl missing ↦ inl (ground (arith, present, missing))
      | inr (engine, found) ↦ inr (s, engine, present, found, ground (arith, present, found))
    ])
  ]

  pub serve_registration-Preserves :
      (now : ℕ) (body : Bytes) (node : State)
      → Preserves node (serve_registration floats crypto run now body node).node
  serve_registration-Preserves now body node = elim (serve_registration_cases now body node) [
    | inl kept ↦ kept-Preserves node _ kept
    | inr (s, engine, present, found, same) ↦
        subst (λ (r : Served floats.Float Db). Preserves node r.node) (sym same)
          (register-Preserves now body s engine node present found)
  ]
