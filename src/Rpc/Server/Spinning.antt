-- ===== src/Rpc/Server/Spinning.antt =====
-- A request whose thread never ends.
use mermai_blockchain.Base.{ℕ, ◌<◌, ◌≡◌, refl, Option, [], arith, length}
use mermai_blockchain.Base.Key.{Bytes}
use mermai_blockchain.Base.Text.{text}
use mermai_blockchain.Crypto.{Crypto}
use mermai_blockchain.Floats.{Floats}
use mermai_blockchain.Database.{Statement, Reply}
use mermai_blockchain.Vm.{HasDistinctCodes, ExecutionContext, continues}
use mermai_blockchain.Vm.Step.{new_vm}
use mermai_blockchain.Vm.Spinning.{spinning, execute-spins}
use mermai_blockchain.Rpc.{request_string}
use mermai_blockchain.Rpc.Server.{Machine, runs_on, code_of, run_code, call_code}
use mermai_blockchain.Network.Node.{NodeState}
use mermai_blockchain.Rpc.Server.Method.{contract_call, method_of}
use mermai_blockchain.Rpc.Server.Change.{call_contract}
use mermai_blockchain.Rpc.Server.Handle.{respond, handle_request}

run_code-spinning :
    (machine : Machine) (caller : Bytes)
    → HasDistinctCodes machine.header
    → machine.new_context.gas_used < 1000000
    → length caller < 32
    → (later : ExecutionContext) × (run_code machine (spinning machine.header) caller
        ≡ continues later)
unfolding run_code new_vm
run_code-spinning machine caller codes gas short =
    let start =
      new_vm (record machine.new_context { gas_limit = 1000000; caller_address = caller }) in
    let r =
      execute-spins machine.header machine.clock machine.rounds start codes gas (omega arith)
        short in
    (r.0, r.1)

call_code-spinning :
    (machine : Machine) (caller : Bytes)
    → HasDistinctCodes machine.header
    → machine.new_context.gas_used < 1000000
    → length caller < 32
    → call_code machine (spinning machine.header) caller ≡ runs_on
unfolding call_code
call_code-spinning machine caller codes gas short =
    let r = run_code-spinning machine caller codes gas short in ground (arith, r.1)

module _ (floats : Floats) (crypto : Crypto) {Db : Type 0} (run : Statement → Db → Reply × Db)
    (machine : Machine) where
  call_contract-spinning :
      (body : Bytes) (node : NodeState floats.Float Db)
      → request_string body (text "address") ≡ []
      → code_of body ≡ spinning machine.header
      → call_code machine (spinning machine.header) (request_string body (text "from")) ≡ runs_on
      → (call_contract floats crypto run machine body node).reaction ≡ runs_on
  unfolding call_contract
  call_contract-spinning body node unnamed code spins =
      rw (unnamed, code, spins, call_contract) refl

  -- A request to call the code CALLER, JMP that it carries itself, from an address shorter than 32
  -- bytes, is never answered, however many rounds the machine is given: whoever can reach the server
  -- keeps a thread of it busy for ever with one request, in spite of the gas limit.
  pub handle_request-spins :
      (now : ℕ) (peers : Option ℕ) (body : Bytes) (node : NodeState floats.Float Db)
      → HasDistinctCodes machine.header
      → machine.new_context.gas_used < 1000000
      → method_of (request_string body (text "method")) ≡ contract_call
      → request_string body (text "address") ≡ []
      → code_of body ≡ spinning machine.header
      → length (request_string body (text "from")) < 32
      → (handle_request floats crypto run machine now peers body node).reaction ≡ runs_on
  unfolding handle_request respond
  handle_request-spins now peers body node codes gas method unnamed code short =
      let spins = call_code-spinning machine (request_string body (text "from")) codes gas short in
      rw (method, call_contract-spinning body node unnamed code spins) refl
