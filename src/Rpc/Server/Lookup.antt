-- ===== src/Rpc/Server/Lookup.antt =====
-- The methods that only look: blocks, transactions, code, validators, the quorum and the metrics.
use mermai_blockchain.Base.{
  ℕ, zero, suc, ◌+◌, ◌%◌, ◌^◌, Option, none, some, List, [], ◌∷◌, ◌++◌, ltb, length, is_empty,
  if◌then◌else◌,
}
use mermai_blockchain.Base.Key.{Bytes, bytes_key, nat_key, ◌==◌}
use mermai_blockchain.Base.Text.{text}
use mermai_blockchain.Base.Words.{u32_mod}
use mermai_blockchain.Crypto.{Crypto, hex_encode}
use mermai_blockchain.Floats.{Floats}
use mermai_blockchain.Vote.{to_decimal}
use mermai_blockchain.Staking.{ValidatorStake}
use mermai_blockchain.Staking.Engine.{get_total_active_stake}
use mermai_blockchain.Quorum.{QuorumCollector, get_vote_stake, is_block_finalized}
use mermai_blockchain.Proposal.{block_hash_hex}
use mermai_blockchain.Chain.{Blockchain, get_block, get_height}
use mermai_blockchain.Database.{Statement, Reply}
use mermai_blockchain.Database.Records.{
  get_block_by_height, get_latest_block_height, get_transaction, get_contract_code,
}
use mermai_blockchain.Database.Validators.{get_validator, get_all_validators}
use mermai_blockchain.Network.Node.{NodeState}
use mermai_blockchain.Rpc.{json_string, request_string, request_number}
use mermai_blockchain.Rpc.Server.{json_error, json_result, block_result, gauge}
use mermai_blockchain.Rpc.Server.State.{Served, replies, engine_of}

-- The parameter of a request by its name, or else the first string after `"params"`.
unfoldable pub get_param : Bytes → Bytes → Bytes
get_param body key =
    let named = request_string body key in
    if is_empty named then request_string body (text "params") else named

-- The first of the names that has a text.
unfoldable pub first_of : Bytes → List Bytes → Bytes
first_of body [] = []
first_of body (key ∷ keys) =
    let found = request_string body key in if is_empty found then first_of body keys else found

-- The height of a request, or else the number after `"params"`.
unfoldable pub height_of : Bytes → ℕ
height_of body =
    let height = request_number body (text "height") in
    (if height == 0 then request_number body (text "params") else height) % u32_mod

unfoldable pub quorum_unavailable : Bytes
unfolding json_error
quorum_unavailable = json_error 32000 (text "Quorum service unavailable")

module _ (floats : Floats) (crypto : Crypto) {Db : Type 0} (run : Statement → Db → Reply × Db) where
  unfoldable pub get_block_count : NodeState floats.Float Db → Served floats.Float Db
  unfolding json_result
  get_block_count node = elim node.blockchain [
    | some s ↦ replies node (json_result (to_decimal (get_height floats crypto s)))
    | none ↦ (elim node.database [
      | none ↦ replies node (json_result (to_decimal 0))
      | some db ↦
          let r = get_latest_block_height run db in
          replies (record node { database = some r.1 }) (json_result (to_decimal r.0))
    ])
  ]

  unfoldable pub get_block_at : ℕ → NodeState floats.Float Db → Served floats.Float Db
  unfolding block_result
  get_block_at height node =
      let stored : Served floats.Float Db = elim node.database [
        | none ↦ replies node (block_result none)
        | some db ↦
            let r = get_block_by_height run height db in
            replies (record node { database = some r.1 }) (block_result r.0)
      ] in
      elim node.blockchain [
        | none ↦ stored
        | some s ↦ (elim (get_block floats crypto height s) [
          | none ↦ stored
          | some b ↦ replies node (block_result (some b))
        ])
      ]

  -- The loop down from a height, over the number of heights left.
  unfoldable pub finalized_from : ℕ → Blockchain floats.Float → QuorumCollector → Option (ℕ × Bytes)
  finalized_from zero s q = none
  finalized_from (suc height) s q =
      let below = finalized_from height s q in
      elim (get_block floats crypto height s) [
        | none ↦ below
        | some b ↦
            if is_block_finalized (block_hash_hex crypto b) q
            then some (b.height, block_hash_hex crypto b)
            else below
      ]

  -- The heights are signed 32-bit numbers in the loop.
  unfoldable pub get_finalized_block : NodeState floats.Float Db → Bytes
  unfolding finalized_from json_error json_result
  get_finalized_block node = elim node.blockchain [
    | none ↦ json_error 1 (text "Blockchain unavailable")
    | some s ↦
        let tip = get_height floats crypto s in
        let found : Option (ℕ × Bytes) = elim node.quorum [
          | none ↦ none
          | some q ↦ finalized_from (if ltb tip (2 ^ 31) then tip + 1 else 0) s q
        ] in
        (elim found [
          | none ↦ json_result (text "{\"height\":0,\"hash\":\"genesis\"}")
          | some b ↦ json_result (
              text "{\"height\":"
              ++ (to_decimal b.0 ++ (text ",\"hash\":" ++ (json_string b.1 ++ text "}"))))
        ])
  ]

  unfoldable pub find_transaction : Bytes → Option Db → Bytes × Option Db
  unfolding json_error json_result
  find_transaction tx_id db =
      let r = get_transaction run tx_id db in
      (
        if is_empty r.0.id
            then json_error 1 (text "Transaction not found")
            else json_result (
                text "{\"id\":"
                ++ (json_string r.0.id ++ (text ",\"fee\":" ++ (to_decimal r.0.fee ++ text "}")))),
        r.1,
      )

  unfoldable pub find_code : Bytes → Option Db → Bytes × Option Db
  unfolding json_error json_result
  find_code address db =
      let r = get_contract_code run address db in
      (
        if is_empty r.0
            then json_error 1 (text "Contract not found")
            else json_result (json_string (text "0x" ++ hex_encode r.0)),
        r.1,
      )

  -- `get_validator_info` and `get_validator_weight`, by what is written of a validator that has an
  -- amount.
  unfoldable pub find_validator :
      (ValidatorStake floats.Float → Bytes) → Bytes → Option Db → Bytes × Option Db
  unfolding json_error json_result
  find_validator write address db =
      let r = get_validator floats run address db in
      (
        if r.0.amount == 0
            then json_error 1 (text "Validator not found")
            else json_result (write r.0),
        r.1,
      )

  unfoldable pub write_validator : ValidatorStake floats.Float → Bytes
  write_validator v =
      text "{\"address\":"
      ++ (json_string v.address
          ++ (text ",\"amount\":"
              ++ (to_decimal v.amount
                  ++ (text ",\"lockTime\":"
                      ++ (to_decimal v.lock_time
                          ++ (text ",\"lastProposal\":"
                              ++ (to_decimal v.last_proposal
                                  ++ (text ",\"weight\":"
                                      ++ (floats.print v.weight ++ text "}")))))))))

  -- The loop of `get_all_validators`, with what stands before the next entry.
  unfoldable pub write_validators : Bytes → List (ValidatorStake floats.Float) → Bytes
  write_validators separator [] = []
  write_validators separator (v ∷ validators) =
      separator
      ++ (text "{\"address\":"
          ++ (json_string v.address
              ++ (text ",\"amount\":"
                  ++ (to_decimal v.amount
                      ++ (text "}" ++ write_validators (text ",") validators)))))

  unfoldable pub list_validators : Option Db → Bytes × Option Db
  unfolding write_validators json_result
  list_validators db =
      let r = get_all_validators floats run db in
      (json_result (text "[" ++ (write_validators [] r.0 ++ text "]")), r.1)

  unfoldable pub get_quorum_status : Bytes → NodeState floats.Float Db → Bytes
  unfolding json_result quorum_unavailable
  get_quorum_status hash node = elim node.quorum [
    | none ↦ quorum_unavailable
    | some q ↦ (elim (engine_of node) [
      | none ↦ quorum_unavailable
      | some engine ↦ json_result (
          text "{\"finalized\":"
          ++ ((if is_block_finalized hash q then text "true" else text "false")
              ++ (text ",\"voteStake\":"
                  ++ (to_decimal (get_vote_stake hash q)
                      ++ (text ",\"totalStake\":"
                          ++ (to_decimal (get_total_active_stake floats engine) ++ text "}"))))))
    ])
  ]

  unfoldable pub get_metrics : Option ℕ → NodeState floats.Float Db → Bytes
  unfolding gauge
  get_metrics peers node =
      gauge (text "mermai_block_height") (text "Current chain tip height")
        (elim node.blockchain [ none ↦ 0 | some s ↦ get_height floats crypto s ])
      ++ (text "\n"
          ++ (gauge (text "mermai_validators_active") (text "Number of active validators")
                (elim (engine_of node) [
                  | none ↦ 0
                  | some engine ↦ length engine.active_validators % u32_mod
                ])
              ++ (text "\n"
                  ++ (gauge (text "mermai_peers_connected") (text "Number of connected P2P peers")
                        (elim peers [ none ↦ 0 | some count ↦ count ])
                      ++ (text "\n"
                          ++ gauge (text "mermai_mempool_size")
                              (text "Number of unconfirmed transactions") 0)))))
