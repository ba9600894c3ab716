-- ===== src/Rpc/Server.antt =====
-- `mermai_rpc_server` of src/rpc/mermai_rpc.cpp: its methods, from the state that it shares with the
-- rest of a node to the state it leaves and the text of the response. As in src/mermai_main.cpp, the
-- engine is the one that the chain has. Requests are handled in threads of their own; a request is
-- a step here.
pub mod Method
pub mod State
pub mod Lookup
pub mod Change
pub mod Handle
pub mod Preserved
pub mod Frame
pub mod Spinning
use mermai_blockchain.Base.{
  ℕ, zero, suc, ◌+◌, ◌-◌, ◌*◌, ◌^◌, Bool, true, false, ◌&&◌, ◌||◌, not, Option, none, some, List,
  [], ◌∷◌, ◌++◌, ltb, length, take, is_empty, if◌then◌else◌, replicate,
}
use mermai_blockchain.Base.Key.{Bytes, bytes_key, nat_key, ◌==◌}
use mermai_blockchain.Base.Text.{text}
use mermai_blockchain.Base.Words.{u32_mod}
use mermai_blockchain.Crypto.{Crypto, hex_encode}
use mermai_blockchain.Floats.{Floats}
use mermai_blockchain.Wire.{
  WireError, unexpected_end, invalid_byte_payload_size, invalid_string_payload_size,
  too_many_inputs, too_many_outputs, trailing_transaction_data, too_many_block_transactions,
  trailing_block_data, ok, err,
}
use mermai_blockchain.Transaction.{Transaction, deserialize_transaction}
use mermai_blockchain.Vote.{BlockVote, to_decimal}
use mermai_blockchain.Block.{Block}
use mermai_blockchain.Staking.{ValidatorStake, TimeWeightedPos, register_validator}
use mermai_blockchain.Quorum.{QuorumCollector, add_vote, get_vote_stake, is_block_finalized}
use mermai_blockchain.Staking.Engine.{get_total_active_stake}
use mermai_blockchain.Proposal.{block_hash_hex}
use mermai_blockchain.Chain.{Blockchain, get_block, get_height}
use mermai_blockchain.Database.{Statement, Reply}
use mermai_blockchain.Database.Store.{id_of, validate_transaction_inputs}
use mermai_blockchain.Database.Records.{
  get_block_by_hash, get_block_by_height, get_latest_block_height, get_account, get_transaction,
  add_to_mempool, save_contract_code, get_contract_code, empty_transaction,
}
use mermai_blockchain.Database.Validators.{save_validator, get_validator, get_all_validators}
use mermai_blockchain.Network.{P2pMessage}
use mermai_blockchain.Network.Node.{NodeState, transaction_message, vote_message}
use mermai_blockchain.Pubsub.{hex_digits}
use mermai_blockchain.Vm.{VmHeader, ExecutionContext, Outcome, continues, returns, crashes}
use mermai_blockchain.Vm.Step.{new_vm, execute}
use mermai_blockchain.Rpc.{json_string, strip_prefix, request_string, request_number, hex_bytes}

-- `json_error` with a negative code.
unfoldable pub json_error : ℕ → Bytes → Bytes
json_error code message =
    text "{\"error\":{\"code\":-"
    ++ (to_decimal code ++ (text ",\"message\":" ++ (json_string message ++ text "}}")))

unfoldable pub json_result : Bytes → Bytes
json_result value = text "{\"result\":" ++ (value ++ text "}")

unfoldable pub database_unavailable : Bytes
unfolding json_error
database_unavailable = json_error 1 (text "Database unavailable")

-- `e.what()`
unfoldable pub what : WireError → Bytes
what unexpected_end = text "Unexpected end of payload"
what invalid_byte_payload_size = text "Invalid byte payload size"
what invalid_string_payload_size = text "Invalid string payload size"
what too_many_inputs = text "Too many transaction inputs"
what too_many_outputs = text "Too many transaction outputs"
what trailing_transaction_data = text "Trailing transaction data"
what too_many_block_transactions = text "Too many block transactions"
what trailing_block_data = text "Trailing block data"

-- `"bytecode"`, or else `"code"`.
unfoldable pub code_of : Bytes → Bytes
code_of body =
    let first = request_string body (text "bytecode") in
    hex_bytes (if is_empty first then request_string body (text "code") else first)

unfoldable pub block_result : Option Block → Bytes
unfolding json_error json_result
block_result none = json_error 1 (text "Block not found")
block_result (some b) = json_result (
    text "{\"height\":"
    ++ (to_decimal b.height
        ++ (text ",\"validator\":" ++ (json_string b.validator_address ++ text "}"))))

unfoldable pub suggest_fee : Bytes
unfolding json_result
suggest_fee = json_result (text "{\"min_fee\":1000,\"median_fee\":5000,\"fast_fee\":10000}")

unfoldable pub get_chain_id : Bytes
unfolding json_result
get_chain_id = json_result (text "1337")

unfoldable pub get_peer_count : Option ℕ → Bytes
unfolding json_result
get_peer_count none = json_result (text "0")
get_peer_count (some peers) = json_result (to_decimal peers)

-- A gauge of `get_metrics`.
unfoldable pub gauge : Bytes → Bytes → ℕ → Bytes
gauge name help value =
    text "# HELP "
    ++ (name
        ++ (text " "
            ++ (help
                ++ (text "\n# TYPE "
                    ++ (name
                        ++ (text " gauge\n"
                            ++ (name ++ (text " " ++ (to_decimal value ++ text "\n")))))))))

-- What the machine and its header are to the server: the rounds it is followed for, the clock of
-- each round, and the fields of a new context that the server does not set.
pub record Machine : Type 0 where
  pub header : VmHeader
  pub clock : ℕ → ℕ
  pub rounds : ℕ
  pub new_context : ExecutionContext

unfoldable pub run_code : Machine → Bytes → Bytes → Outcome
run_code machine code caller =
    execute machine.header machine.clock code machine.rounds
      (new_vm (record machine.new_context { gas_limit = 1000000; caller_address = caller }))

-- A response, unless the machine has not returned within its rounds, or has ended the process.
pub data Reaction : Type 0 where
  responds : Bytes → Reaction
  runs_on : Reaction
  dies : Reaction

unfoldable pub estimate_gas : Machine → Bytes → Reaction
unfolding run_code json_result
estimate_gas machine body =
    let code = code_of body in
    if is_empty code
    then responds (json_result (json_string (text "0x5208")))
    else elim (run_code machine code machine.new_context.caller_address) [
      | continues c ↦ runs_on
      | returns c result ↦
          responds (json_result (json_string (text "0x" ++ hex_digits 16 c.gas_used [])))
      | crashes ↦ dies
    ]

-- The word on top of the stack, or 64 zeros.
unfoldable pub top_hex : List Bytes → Bytes
top_hex [] = replicate 64 b'0'
top_hex (word ∷ stack) = hex_encode word

unfoldable pub call_code : Machine → Bytes → Bytes → Reaction
unfolding run_code json_result json_error top_hex
call_code machine code caller =
    if is_empty code
    then responds (json_error 1 (text "Contract code not found"))
    else elim (run_code machine code caller) [
      | continues c ↦ runs_on
      | returns c result ↦ responds (
          if result
          then json_result (json_string (text "0x" ++ top_hex c.stack))
          else json_error 32000 (text "Execution failed"))
      | crashes ↦ dies
    ]
