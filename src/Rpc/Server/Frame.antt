-- ===== src/Rpc/Server/Frame.antt =====
-- What requests cannot do to a node.
use mermai_blockchain.Base.{
  ℕ, ◌≡◌, refl, ◌∙◌, Option, some, List, [], ◌∷◌, arith, Option-cases, inl, inr, ◌⊎◌,
}
use mermai_blockchain.Base.Key.{Bytes}
use mermai_blockchain.Base.Text.{text}
use mermai_blockchain.Crypto.{Crypto}
use mermai_blockchain.Floats.{Floats}
use mermai_blockchain.Staking.{TimeWeightedPos}
use mermai_blockchain.Quorum.{QuorumCollector, add_vote}
use mermai_blockchain.Quorum.Votes.{HoldsBallots, add_vote-HoldsBallots}
use mermai_blockchain.Database.{Statement, Reply}
use mermai_blockchain.Rpc.{request_string}
use mermai_blockchain.Rpc.Server.{Machine}
use mermai_blockchain.Network.Node.{NodeState}
use mermai_blockchain.Rpc.Server.Method.{
  Method, block_number, block_by_number, block_by_hash, balance_of, transaction_count,
  transaction_by_hash, raw_transaction, validator_registration, validator_info, all_validators,
  validator_weight, vote_submission, contract_deployment, contract_code, contract_call, method_of,
}
use mermai_blockchain.Rpc.Server.State.{engine_of}
use mermai_blockchain.Rpc.Server.Lookup.{height_of}
use mermai_blockchain.Rpc.Server.Change.{vote_of, submit_vote}
use mermai_blockchain.Rpc.Server.Handle.{respond, handle_request}
use mermai_blockchain.Rpc.Server.Preserved.{
  asks-Preserves, IsKept, get_block_count-IsKept, get_block_at-IsKept, send_transaction-IsKept,
  deploy_contract-IsKept, call_contract-IsKept, Preserves, kept-Preserves,
  serve_registration-Preserves,
}

module _ (floats : Floats) (crypto : Crypto) {Db : Type 0} (run : Statement → Db → Reply × Db)
    (machine : Machine) where
  abbrev State : Type 0
  State = NodeState floats.Float Db

  submit_vote_cases :
      (peers : Option ℕ) (body : Bytes) (node : State)
      → IsKept floats crypto run node (submit_vote floats crypto run peers body node).node
        ⊎ ((q : QuorumCollector) × (engine : TimeWeightedPos floats.Float) × (node.quorum ≡ some q)
            × ((submit_vote floats crypto run peers body node).node.blockchain ≡ node.blockchain)
            × ((submit_vote floats crypto run peers body node).node.quorum
                ≡ some (add_vote floats crypto (vote_of body) engine q).0))
  unfolding submit_vote
  submit_vote_cases peers body node = elim (Option-cases node.quorum) [
    | inl missing ↦ inl (ground (arith, missing))
    | inr (q, present) ↦ (elim (Option-cases (engine_of node)) [
      | inl missing ↦ inl (ground (arith, present, missing))
      | inr (engine, found) ↦
          inr (q, engine, present, ground (arith, present, found), ground (arith, present, found))
    ])
  ]

  counted-Preserves :
      (node after : State) (q counted : QuorumCollector)
      → after.blockchain ≡ node.blockchain
      → node.quorum ≡ some q
      → after.quorum ≡ some counted
      → (HoldsBallots crypto q → HoldsBallots crypto counted)
      → Preserves floats crypto run node after
  counted-Preserves node after q counted same present kept votes = record {
    blocks = rw same refl;
    roll = λ r. rw same r;
    ballots = λ v. rw kept (votes (rw present at v));
  }

  submit_vote-Preserves :
      (peers : Option ℕ) (body : Bytes) (node : State)
      → Preserves floats crypto run node (submit_vote floats crypto run peers body node).node
  submit_vote-Preserves peers body node = elim (submit_vote_cases peers body node) [
    | inl kept ↦ kept-Preserves floats crypto run node _ kept
    | inr (q, engine, present, same, counted) ↦
        counted-Preserves node _ q _ same present counted
          (add_vote-HoldsBallots floats crypto (vote_of body) engine q)
  ]

  respond-Preserves :
      (method : Method) (now : ℕ) (peers : Option ℕ) (body : Bytes) (node : State)
      → Preserves floats crypto run node
          (respond floats crypto run machine method now peers body node).node
  unfolding respond
  respond-Preserves block_number now peers body node =
      kept-Preserves floats crypto run node _ (get_block_count-IsKept floats crypto run node)
  respond-Preserves block_by_number now peers body node =
      kept-Preserves floats crypto run node _
        (get_block_at-IsKept floats crypto run (height_of body) node)
  respond-Preserves raw_transaction now peers body node =
      kept-Preserves floats crypto run node _
        (send_transaction-IsKept floats crypto run now peers body node)
  respond-Preserves contract_deployment now peers body node =
      kept-Preserves floats crypto run node _ (deploy_contract-IsKept floats crypto run body node)
  respond-Preserves contract_call now peers body node =
      kept-Preserves floats crypto run node _
        (call_contract-IsKept floats crypto run machine body node)
  respond-Preserves validator_registration now peers body node =
      serve_registration-Preserves floats crypto run now body node
  respond-Preserves vote_submission now peers body node = submit_vote-Preserves peers body node
  respond-Preserves block_by_hash now peers body node = asks-Preserves floats crypto run node _
  respond-Preserves balance_of now peers body node = asks-Preserves floats crypto run node _
  respond-Preserves transaction_count now peers body node = asks-Preserves floats crypto run node _
  respond-Preserves transaction_by_hash now peers body node =
      asks-Preserves floats crypto run node _
  respond-Preserves validator_info now peers body node = asks-Preserves floats crypto run node _
  respond-Preserves all_validators now peers body node = asks-Preserves floats crypto run node _
  respond-Preserves validator_weight now peers body node = asks-Preserves floats crypto run node _
  respond-Preserves contract_code now peers body node = asks-Preserves floats crypto run node _
  respond-Preserves _ now peers body node = kept-Preserves floats crypto run node node (refl, refl)

  -- A request with its time and the number of peers, if there is a network.
  pub record Request : Type 0 where
    pub now : ℕ
    pub peers : Option ℕ
    pub body : Bytes

  unfoldable pub serve_all : State → List Request → State
  unfolding handle_request
  serve_all node [] = node
  serve_all node (r ∷ requests) =
      serve_all (handle_request floats crypto run machine r.now r.peers r.body node).node requests

  -- Whatever requests a server handles, with whatever bytes: the blocks of the chain are those that
  -- they were; if the validators have distinct, nonempty addresses they still do; and if every
  -- counted vote is for its block, carries a valid signature and is the only one of its validator,
  -- that is still so.
  pub serve_all-Preserves :
      (requests : List Request) (node : State)
      → Preserves floats crypto run node (serve_all node requests)
  unfolding serve_all handle_request
  serve_all-Preserves [] node = kept-Preserves floats crypto run node node (refl, refl)
  serve_all-Preserves (r ∷ requests) node =
      let method = method_of (request_string r.body (text "method")) in
      let middle = (respond floats crypto run machine method r.now r.peers r.body node).node in
      let first = respond-Preserves method r.now r.peers r.body node in
      let later = serve_all-Preserves requests middle in
      record {
        blocks = later.blocks ∙ first.blocks;
        roll = λ roll. later.roll (first.roll roll);
        ballots = λ votes. later.ballots (first.ballots votes);
      }
