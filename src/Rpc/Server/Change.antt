-- ===== src/Rpc/Server/Change.antt =====
-- The methods that change a node: transactions, contracts, validators and votes.
use mermai_blockchain.Base.{
  ℕ, ◌%◌, ◌||◌, not, Option, none, some, List, [], ◌∷◌, ◌++◌, ltb, take, is_empty, if◌then◌else◌,
}
use mermai_blockchain.Base.Key.{Bytes, bytes_key, nat_key, ◌==◌}
use mermai_blockchain.Base.Text.{text}
use mermai_blockchain.Base.Words.{u32_mod}
use mermai_blockchain.Crypto.{Crypto, hex_encode}
use mermai_blockchain.Floats.{Floats}
use mermai_blockchain.Wire.{Result, ok, err}
use mermai_blockchain.Transaction.{Transaction, deserialize_transaction}
use mermai_blockchain.Vote.{BlockVote}
use mermai_blockchain.Staking.{ValidatorStake, TimeWeightedPos, register_validator}
use mermai_blockchain.Quorum.{add_vote}
use mermai_blockchain.Chain.{Blockchain}
use mermai_blockchain.Database.{Statement, Reply}
use mermai_blockchain.Database.Store.{id_of, validate_transaction_inputs}
use mermai_blockchain.Database.Records.{
  add_to_mempool, save_contract_code, get_contract_code, empty_transaction,
}
use mermai_blockchain.Database.Validators.{save_validator}
use mermai_blockchain.Network.Node.{NodeState, transaction_message, vote_message}
use mermai_blockchain.Rpc.{json_string, strip_prefix, request_string, request_number, hex_bytes}
use mermai_blockchain.Rpc.Server.{
  json_error, json_result, what, code_of, Machine, responds, call_code,
}
use mermai_blockchain.Rpc.Server.State.{Served, replies, engine_of, to_peers}
use mermai_blockchain.Rpc.Server.Lookup.{first_of, quorum_unavailable}

unfoldable pub vote_of : Bytes → BlockVote
vote_of body = record {
  validator_address = request_string body (text "validator_address");
  block_hash = request_string body (text "block_hash");
  block_height = request_number body (text "block_height") % u32_mod;
  timestamp = request_number body (text "timestamp");
  validator_public_key = hex_bytes (request_string body (text "validator_public_key"));
  signature = hex_bytes (request_string body (text "signature"));
}

-- The bytes of a transaction in a request.
unfoldable pub raw_of : Bytes → Bytes
unfolding first_of
raw_of body =
    let raw = first_of body (text "raw" ∷ text "serialized" ∷ []) in
    elim (strip_prefix (text "0x") raw) [ none ↦ raw | some rest ↦ hex_bytes raw ]

-- A transaction without an id takes three fields from the request.
unfoldable pub named_transaction : Bytes → Transaction → Transaction
named_transaction body tx =
    if is_empty tx.id
    then record tx {
      id = request_string body (text "id");
      timestamp = request_number body (text "timestamp");
      fee = request_number body (text "fee");
    }
    else tx

unfoldable pub transaction_of : Bytes → Result Transaction
unfolding raw_of named_transaction
transaction_of body =
    if is_empty (raw_of body)
    then ok (named_transaction body empty_transaction)
    else elim (deserialize_transaction (raw_of body)) [
      | err reason ↦ err reason
      | ok tx ↦ ok (named_transaction body tx)
    ]

module _ (floats : Floats) (crypto : Crypto) {Db : Type 0} (run : Statement → Db → Reply × Db) where
  unfoldable pub send_transaction :
      ℕ → Option ℕ → Bytes → NodeState floats.Float Db → Served floats.Float Db
  unfolding transaction_of json_error json_result
  send_transaction now peers body node = elim (transaction_of body) [
    | err reason ↦ replies node (json_error 32602 (what reason))
    | ok tx ↦
        let accepted = json_result (json_string (id_of crypto tx)) in
        let sent = to_peers peers (transaction_message tx) in
        (elim node.database [
          | none ↦ record { node = node; reaction = responds accepted; sent = sent }
          | some db ↦
              let checked = validate_transaction_inputs run crypto now tx db in
              let added = add_to_mempool run crypto tx checked.1 in
              if not checked.0
              then replies (record node { database = some checked.1 })
                  (json_error 32602 (text "Invalid transaction inputs"))
              else if not added.0
              then replies (record node { database = some added.1 })
                  (json_error 32000 (text "Mempool insertion failed"))
              else record {
                node = record node { database = some added.1 };
                reaction = responds accepted;
                sent = sent;
              }
        ])
  ]

  unfoldable pub deploy_contract : Bytes → NodeState floats.Float Db → Served floats.Float Db
  unfolding code_of json_error json_result
  deploy_contract body node =
      let code = code_of body in
      let address = text "0x" ++ hex_encode (take 20 (crypto.sha256 code)) in
      let deployed = json_result (json_string address) in
      if is_empty code
      then replies node (json_error 32602 (text "Invalid contract bytecode"))
      else elim node.database [
        | none ↦ replies node deployed
        | some db ↦
            let r = save_contract_code run address code db in
            replies (record node { database = some r.1 })
              (if r.0 then deployed else json_error 32000 (text "Failed to save contract"))
      ]

  -- The code stored under the address, or else that of the request, if it has one.
  unfoldable pub call_contract :
      Machine → Bytes → NodeState floats.Float Db → Served floats.Float Db
  call_contract machine body node =
      let address = request_string body (text "address") in
      let caller = request_string body (text "from") in
      let unstored : Served floats.Float Db = record {
        node = node;
        reaction = call_code machine (code_of body) caller;
        sent = [];
      } in
      if is_empty address then unstored else elim node.database [
        | none ↦ unstored
        | some db ↦
            let r = get_contract_code run address db in
            record {
              node = record node { database = some r.1 };
              reaction = call_code machine (if is_empty r.0 then code_of body else r.0) caller;
              sent = [];
            }
      ]

  -- The loop that saves the entry of the address.
  unfoldable pub save_matching : Bytes → List (ValidatorStake floats.Float) → Option Db → Option Db
  save_matching address [] db = db
  save_matching address (v ∷ validators) db =
      save_matching address validators
        (if v.address == address then (save_validator floats run v db).1 else db)

  -- The engine of the chain is replaced by one that the server has changed.
  abbrev pub with_engine :
      NodeState floats.Float Db
      → Blockchain floats.Float
      → TimeWeightedPos floats.Float
      → NodeState floats.Float Db
  with_engine node s engine = record node {
    blockchain = some (record s { consensus_engine = some engine });
  }

  unfoldable pub registered_node :
      Bytes
      → Blockchain floats.Float
      → TimeWeightedPos floats.Float
      → NodeState floats.Float Db
      → NodeState floats.Float Db
  unfolding save_matching
  registered_node address s engine node = elim node.database [
    | none ↦ with_engine node s engine
    | some db ↦ record (with_engine node s engine) {
      database = some (save_matching address engine.active_validators db);
    }
  ]

  unfoldable pub register :
      ℕ
      → Bytes
      → Blockchain floats.Float
      → TimeWeightedPos floats.Float
      → NodeState floats.Float Db
      → Served floats.Float Db
  unfolding registered_node json_error json_result
  register now body s engine node =
      let address = request_string body (text "address") in
      let stake = request_number body (text "stake") in
      let key = hex_bytes (request_string body (text "public_key")) in
      let r = register_validator floats crypto now address stake key engine in
      if is_empty address || (ltb stake 1000000 || not r.1)
      then replies node (json_error 32602 (text "Invalid validator registration"))
      else replies (registered_node address s r.0 node) (json_result (text "true"))

  unfoldable pub serve_registration : ℕ → Bytes → NodeState floats.Float Db → Served floats.Float Db
  unfolding json_error
  serve_registration now body node =
      let unavailable = replies node (json_error 32000 (text "Consensus unavailable")) in
      elim node.blockchain [
        | none ↦ unavailable
        | some s ↦ (elim s.consensus_engine [
          | none ↦ unavailable
          | some engine ↦ register now body s engine node
        ])
      ]

  unfoldable pub submit_vote : Option ℕ → Bytes → NodeState floats.Float Db → Served floats.Float Db
  unfolding vote_of json_error json_result quorum_unavailable
  submit_vote peers body node = elim node.quorum [
    | none ↦ replies node quorum_unavailable
    | some q ↦ (elim (engine_of node) [
      | none ↦ replies node quorum_unavailable
      | some engine ↦
          let r = add_vote floats crypto (vote_of body) engine q in
          if r.1
          then record {
            node = record node { quorum = some r.0 };
            reaction = responds (json_result (text "true"));
            sent = to_peers peers (vote_message (vote_of body));
          }
          else replies (record node { quorum = some r.0 })
              (json_error 32602 (text "Invalid vote signature or unregistered validator"))
    ])
  ]
