-- ===== src/Rpc/Server/Handle.antt =====
-- `handle_request` of src/rpc/mermai_rpc.cpp.
use mermai_blockchain.Base.{ℕ, ◌-◌, Option, none, some, [], ◌∷◌, ◌++◌, length, take, drop}
use mermai_blockchain.Base.Key.{Bytes, bytes_key, nat_key}
use mermai_blockchain.Base.Text.{text}
use mermai_blockchain.Crypto.{Crypto}
use mermai_blockchain.Floats.{Floats}
use mermai_blockchain.Vote.{to_decimal}
use mermai_blockchain.Database.{Statement, Reply}
use mermai_blockchain.Database.Records.{get_block_by_hash, get_account}
use mermai_blockchain.Network.Node.{NodeState}
use mermai_blockchain.Rpc.{strip_prefix, request_id, request_string}
use mermai_blockchain.Rpc.Server.{
  json_error, json_result, block_result, suggest_fee, get_chain_id, get_peer_count, Machine,
  Reaction, responds, runs_on, dies, estimate_gas,
}
use mermai_blockchain.Rpc.Server.Method.{
  Method, block_number, block_by_number, block_by_hash, finalized_block, balance_of,
  transaction_count, transaction_by_hash, raw_transaction, fee_suggestion, metrics,
  validator_registration, validator_info, all_validators, validator_weight, vote_submission,
  quorum_status, contract_deployment, contract_code, contract_call, gas_estimate, peer_count,
  chain_id, unknown, method_of,
}
use mermai_blockchain.Rpc.Server.State.{Served, replies, asks}
use mermai_blockchain.Rpc.Server.Lookup.{
  get_param, first_of, height_of, get_block_count, get_block_at, get_finalized_block,
  find_transaction, find_code, find_validator, write_validator, list_validators, get_quorum_status,
  get_metrics,
}
use mermai_blockchain.Rpc.Server.Change.{
  send_transaction, deploy_contract, call_contract, serve_registration, submit_vote,
}

-- `{"jsonrpc":"2.0",…,"id":…}` around a result or an error; another text stands as it is.
unfoldable pub enveloped : Bytes → Bytes → Bytes
unfolding request_id
enveloped body response =
    let inner = take (length response - 2) (drop 1 response) in
    let wrapped =
      text "{\"jsonrpc\":\"2.0\","
      ++ (inner ++ (text ",\"id\":" ++ (request_id body ++ text "}"))) in
    elim (strip_prefix (text "{\"error\"") response) [
      | some rest ↦ wrapped
      | none ↦ (elim (strip_prefix (text "{\"result\"") response) [
        | some rest ↦ wrapped
        | none ↦ response
      ])
    ]

abbrev pub envelop : Bytes → Reaction → Reaction
envelop body (responds response) = responds (enveloped body response)
envelop body runs_on = runs_on
envelop body dies = dies

module _ (floats : Floats) (crypto : Crypto) {Db : Type 0} (run : Statement → Db → Reply × Db) where
  -- The response of a method before it is enveloped.
  unfoldable pub respond :
      Machine → Method → ℕ → Option ℕ → Bytes → NodeState floats.Float Db → Served floats.Float Db
  unfolding get_param first_of
  respond machine block_number now peers body node = get_block_count floats crypto run node
  respond machine block_by_number now peers body node =
      get_block_at floats crypto run (height_of body) node
  respond machine block_by_hash now peers body node = asks node λ db.
      let r = get_block_by_hash run (get_param body (text "hash")) db in (block_result r.0, r.1)
  respond machine finalized_block now peers body node =
      replies node (get_finalized_block floats crypto run node)
  respond machine balance_of now peers body node = asks node λ db.
      let r = get_account run (get_param body (text "address")) db in
      (json_result (to_decimal r.0.balance), r.1)
  respond machine transaction_count now peers body node = asks node λ db.
      let r = get_account run (get_param body (text "address")) db in
      (json_result (to_decimal r.0.nonce), r.1)
  respond machine transaction_by_hash now peers body node = asks node (
      find_transaction floats crypto run
        (first_of body (text "txHash" ∷ text "tx_id" ∷ text "hash" ∷ text "params" ∷ [])))
  respond machine raw_transaction now peers body node =
      send_transaction floats crypto run now peers body node
  respond machine fee_suggestion now peers body node = replies node suggest_fee
  respond machine metrics now peers body node =
      replies node (get_metrics floats crypto run peers node)
  respond machine validator_registration now peers body node =
      serve_registration floats crypto run now body node
  respond machine validator_info now peers body node = asks node (
      find_validator floats crypto run (write_validator floats crypto run)
        (get_param body (text "address")))
  respond machine all_validators now peers body node = asks node (list_validators floats crypto run)
  respond machine validator_weight now peers body node = asks node (
      find_validator floats crypto run (λ v. floats.fixed v.weight)
        (get_param body (text "address")))
  respond machine vote_submission now peers body node =
      submit_vote floats crypto run peers body node
  respond machine quorum_status now peers body node =
      replies node (get_quorum_status floats crypto run (get_param body (text "hash")) node)
  respond machine contract_deployment now peers body node =
      deploy_contract floats crypto run body node
  respond machine contract_code now peers body node =
      asks node (find_code floats crypto run (get_param body (text "address")))
  respond machine contract_call now peers body node =
      call_contract floats crypto run machine body node
  respond machine gas_estimate now peers body node = record {
    node = node;
    reaction = estimate_gas machine body;
    sent = [];
  }
  respond machine peer_count now peers body node = replies node (get_peer_count peers)
  respond machine chain_id now peers body node = replies node get_chain_id
  respond machine unknown now peers body node =
      replies node (json_error 32601 (text "Method not found"))

  -- A request at a time, with the number of peers, if there is a network.
  unfoldable pub handle_request :
      Machine → ℕ → Option ℕ → Bytes → NodeState floats.Float Db → Served floats.Float Db
  unfolding respond
  handle_request machine now peers body node =
      let served =
        respond machine (method_of (request_string body (text "method"))) now peers body node in
      record { node = served.node; reaction = envelop body served.reaction; sent = served.sent }
