-- ===== src/Rpc/Tests.antt =====
-- Requests as they are sent.
use mermai_blockchain.Base.{◌≡◌, refl, false, none, some, [], ◌∷◌, ◌++◌, arith, if◌then◌else◌}
use mermai_blockchain.Base.Key.{Bytes, bytes_beq}
use mermai_blockchain.Base.Text.{text}
use mermai_blockchain.Crypto.{hex_encode}
use mermai_blockchain.Crypto.Sample.{sample_crypto}
use mermai_blockchain.Floats.Sample.{sample_floats}
use mermai_blockchain.Staking.{new_pos}
use mermai_blockchain.Quorum.{new_collector}
use mermai_blockchain.Chain.{new_blockchain}
use mermai_blockchain.Database.Sample.{SampleDb, sample_run}
use mermai_blockchain.Network.Node.{NodeState}
use mermai_blockchain.Vm.{ExecutionContext, not_reverted}
use mermai_blockchain.Vm.Sample.{sample_header, sample_header-HasDistinctCodes}
use mermai_blockchain.Rpc.{
  json_string, strip_prefix, hex_bytes, request_id, request_string, stoull_base,
}
use mermai_blockchain.Rpc.RoundTrip.{
  has_unescaped, read_json_string, hex_bytes-hex_encode, read_json_string-json_string,
}
use mermai_blockchain.Rpc.Server.{Machine, runs_on, code_of}
use mermai_blockchain.Rpc.Server.Method.{method_of, contract_call}
use mermai_blockchain.Rpc.Server.Handle.{handle_request}
use mermai_blockchain.Rpc.Server.Preserved.{Preserves}
use mermai_blockchain.Rpc.Server.Frame.{serve_all, serve_all-Preserves}
use mermai_blockchain.Rpc.Server.Spinning.{handle_request-spins}

hex_bytes-hex_encode_example :
    (hex_bytes (hex_encode (0 ∷ 255 ∷ 18 ∷ [])) ≡ 0 ∷ 255 ∷ 18 ∷ [])
    × (hex_bytes (text "0x" ++ hex_encode (0 ∷ 255 ∷ 18 ∷ [])) ≡ 0 ∷ 255 ∷ 18 ∷ [])
hex_bytes-hex_encode_example = hex_bytes-hex_encode (0 ∷ 255 ∷ 18 ∷ []) (omega arith)

read_json_string-json_string_example :
    read_json_string (json_string (text "a\"\n") ++ text ",")
    ≡ (if has_unescaped (text "a\"\n") then none else some (text "a\"\n", text ","))
read_json_string-json_string_example = read_json_string-json_string (text "a\"\n") (text ",")

-- A string with the control character 1 cannot be read.
control_refused : read_json_string (json_string (1 ∷ [])) ≡ none
unfolding read_json_string json_string
control_refused = refl

json_string_quotes : json_string (text "a\"\n") ≡ text "\"a\\\"\\n\""
unfolding json_string text
json_string_quotes = refl

-- A pair that is no number is passed over.
hex_bytes_skips : hex_bytes (text "0x1zzzff") ≡ 1 ∷ 255 ∷ []
unfolding hex_bytes stoull_base text strip_prefix
hex_bytes_skips = refl

abbrev call_body : Bytes
call_body =
    text
      "{\"jsonrpc\":\"2.0\",\"method\":\"eth_call\",\"params\":[{\"code\":\"0x1412\"}],\"id\": 7}"

id_is_read : request_id call_body ≡ text "7"
unfolding request_id text strip_prefix
id_is_read = refl

abbrev fresh_context : ExecutionContext
fresh_context = record {
  program_counter = 0;
  halted = false;
  gas_used = 0;
  gas_limit = 0;
  revert_reason = not_reverted;
  stack = [];
  memory = [];
  storage = [];
  caller_address = [];
  call_value = 0;
}

abbrev machine : Machine
machine = record {
  header = sample_header;
  clock = λ _. 0;
  rounds = 50;
  new_context = fresh_context;
}

abbrev node : NodeState sample_floats.Float SampleDb
node = record {
  blockchain = some (new_blockchain sample_floats sample_crypto (some (new_pos sample_floats)));
  database = none;
  quorum = some new_collector;
}

serve_all-Preserves_example : Preserves sample_floats sample_crypto sample_run node (
    serve_all sample_floats sample_crypto sample_run machine node
      (record { now = 5; peers = none; body = call_body } ∷ []))
serve_all-Preserves_example =
    serve_all-Preserves sample_floats sample_crypto sample_run machine
      (record { now = 5; peers = none; body = call_body } ∷ []) node

call_method : method_of (request_string call_body (text "method")) ≡ contract_call
unfolding method_of request_string text strip_prefix bytes_beq
call_method = refl

call_address : request_string call_body (text "address") ≡ []
unfolding request_string text strip_prefix
call_address = refl

carried_code : code_of call_body ≡ 20 ∷ 18 ∷ []
unfolding code_of request_string text strip_prefix stoull_base hex_bytes
carried_code = refl

call_sender : request_string call_body (text "from") ≡ []
unfolding request_string text strip_prefix
call_sender = refl

handle_request-spins_example :
    (handle_request sample_floats sample_crypto sample_run machine 5 none call_body node).reaction
    ≡ runs_on
handle_request-spins_example =
    handle_request-spins sample_floats sample_crypto sample_run machine 5 none call_body node
      sample_header-HasDistinctCodes (omega arith) call_method call_address carried_code
      (rw call_sender (omega arith))
