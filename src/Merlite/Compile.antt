-- ===== src/Merlite/Compile.antt =====
-- `merlite_compiler::compile`. The tokens are those from the cursor on; past the last one, which is
-- TOKEN_EOF, the source looks at that one again. A code of an opcode is `header.code`.
pub mod Lengths
pub mod Fits
pub mod Slots
pub mod Layout
use mermai_blockchain.Base.{
  ℕ, zero, suc, ◌+◌, ◌-◌, ◌*◌, ◌%◌, Bool, true, false, ◌&&◌, ◌||◌, Option, none, some, List, [],
  ◌∷◌, ◌++◌, ltb, leb, length, drop, is_empty, if◌then◌else◌,
}
use mermai_blockchain.Base.Words.{u64_max, add32, add64}
use mermai_blockchain.Base.Key.{Bytes, bytes_key, nat_key, ◌==◌}
use mermai_blockchain.Base.Map.{Map, find, find_or, insert}
use mermai_blockchain.Crypto.{hex_encode}
use mermai_blockchain.Vm.{VmHeader, op_push1, op_caller, op_sstore, op_jmpi, op_revert, op_stop}
use mermai_blockchain.Merlite.{
  TokenType, token_contract, token_state, token_pub, token_fn, token_require, token_revert,
  token_return, token_if, token_else, token_caller, token_timestamp, token_uint256, token_address,
  token_bool, token_mapping, token_identifier, token_number, token_string, token_assign, token_plus,
  token_minus, token_star, token_slash, token_eq, token_neq, token_lt, token_gt, token_lte,
  token_gte, token_lbrace, token_rbrace, token_lparen, token_rparen, token_lbracket, token_rbracket,
  token_semicolon, token_comma, token_arrow, token_fat_arrow, token_eof, Token, between,
}
use mermai_blockchain.Merlite.Lexer.{tokenize}
use mermai_blockchain.Merlite.Reader.{
  type_code, is_at, skip_if, skip_until, skip_brackets, digit_value, digits, number_value, stoull,
  state_type, function_head, contract_head,
}

-- What the compiler has found and emitted.
pub record Emission : Type 0 where
  pub bytecode : Bytes
  pub est_gas : ℕ
  pub next_slot : ℕ
  pub storage_map : Map Bytes ℕ
  pub functions : List Bytes

unfoldable pub declare : List Token → Emission → List Token × Emission
unfolding is_at
declare [] e = ([], e)
declare (t ∷ tokens) e =
    if is_at token_identifier (t ∷ tokens)
    then (
      tokens,
      record e {
        next_slot = add32 e.next_slot 1;
        storage_map = insert t.text e.next_slot e.storage_map;
      },
    )
    else (t ∷ tokens, e)

unfoldable pub state_variable : List Token → Emission → List Token × Emission
unfolding state_type declare skip_if
state_variable tokens e =
    let r = declare (state_type tokens) e in (skip_if token_semicolon r.0, r.1)

unfoldable pub emit : Bytes → ℕ → Emission → Emission
emit bytes gas e = record e { bytecode = e.bytecode ++ bytes; est_gas = add64 e.est_gas gas }

-- What a round of a loop comes to: the depth of the braces, the tokens left and what is emitted; an
-- exception ends the compilation.
pub data Round : Type 0 where
  goes_on : ℕ → List Token → Emission → Round
  throws : Emission → Round

-- The head of a function, from after the words `pub` and `fn`: its name, its parameters and the
-- type that it returns.
unfoldable pub function_name : List Token → Emission → List Token × Emission
unfolding is_at
function_name [] e = ([], e)
function_name (t ∷ tokens) e =
    if is_at token_identifier (t ∷ tokens)
    then (tokens, record e { functions = e.functions ++ (t.text ∷ []) })
    else (t ∷ tokens, e)

abbrev pub no_emission : Emission
no_emission = record {
  bytecode = [];
  est_gas = 21000;
  next_slot = 0;
  storage_map = [];
  functions = [];
}

-- `merlite_compilation_result`: its errors, or what is emitted.
pub data CompilationError : Type 0 where
  empty_source compilation_error : CompilationError

pub record CompilationResult : Type 0 where
  pub error : Option CompilationError
  pub bytecode : Bytes
  pub hex_bytecode : Bytes
  pub storage_layout : Map Bytes ℕ
  pub functions : List Bytes
  pub estimated_deployment_gas : ℕ

abbrev pub empty_result : CompilationResult
empty_result = record {
  error = some empty_source;
  bytecode = [];
  hex_bytecode = [];
  storage_layout = [];
  functions = [];
  estimated_deployment_gas = 0;
}

module _ (header : VmHeader) where
  -- `require(…);`, from after the word: the target of the jump is its size as it stands, plus 2.
  unfoldable pub require_code : Emission → Emission
  unfolding emit
  require_code e =
      emit
        (header.code op_push1
          ∷ 1
          ∷ header.code op_jmpi
          ∷ ((length e.bytecode + 3 + 2) % 256)
          ∷ header.code op_revert
          ∷ [])
        20 e

  unfoldable pub store_code : Bytes → ℕ → Emission → Emission
  unfolding emit
  store_code target val e =
      emit
        (header.code op_push1
          ∷ (find_or 0 target e.storage_map % 256)
          ∷ header.code op_push1
          ∷ (val % 256)
          ∷ header.code op_sstore
          ∷ [])
        20000 e

  -- An assignment, from after the sign `=`.
  unfoldable pub assign : Bytes → List Token → Emission → Round
  unfolding is_at skip_if store_code emit
  assign target [] e = goes_on (suc zero) [] (store_code target 100 e)
  assign target (t ∷ tokens) e =
      if is_at token_number (t ∷ tokens)
      then (elim (stoull t.text) [
        | none ↦ throws e
        | some val ↦ goes_on (suc zero) (skip_if token_semicolon tokens) (store_code target val e)
      ])
      else if is_at token_caller (t ∷ tokens)
      then goes_on (suc zero) (skip_if token_semicolon tokens)
          (store_code target 1 (emit (header.code op_caller ∷ []) 0 e))
      else goes_on (suc zero) (skip_if token_semicolon tokens) (store_code target 100 e)

  -- The statement at the token `t`, in the body of a function and in no further braces.
  unfoldable pub statement : Token → List Token → Emission → Round
  unfolding is_at skip_if skip_brackets require_code assign
  statement t tokens e =
      if is_at token_require (t ∷ tokens)
      then goes_on (suc zero) (skip_if token_semicolon (skip_brackets tokens)) (require_code e)
      else if is_at token_identifier (t ∷ tokens) && is_at token_assign tokens
      then assign t.text (drop 1 tokens) e
      else goes_on (suc zero) tokens e

  -- A round of the loop over the body of a function, at the depth `below + 1`; at depth 0 the token
  -- stays.
  unfoldable pub body_round : ℕ → Token → List Token → Emission → Round
  unfolding is_at statement
  body_round below t tokens e =
      if is_at token_lbrace (t ∷ tokens)
      then goes_on (suc (suc below)) tokens e
      else if is_at token_rbrace (t ∷ tokens)
      then (elim below [
        | zero ↦ goes_on zero (t ∷ tokens) e
        | suc depth ↦ goes_on (suc depth) tokens e
      ])
      else (elim below [
        | zero ↦ statement t tokens e
        | suc depth ↦ goes_on (suc (suc depth)) tokens e
      ])

  -- The loop on fuel: none is that it has not ended.
  unfoldable pub compile_body : ℕ → ℕ → List Token → Emission → Option Round
  unfolding body_round
  compile_body fuel depth [] e = some (goes_on depth [] e)
  compile_body fuel zero (t ∷ tokens) e = some (goes_on 0 (t ∷ tokens) e)
  compile_body zero (suc depth) (t ∷ tokens) e = none
  compile_body (suc fuel) (suc depth) (t ∷ tokens) e = elim (body_round depth t tokens e) [
    | throws e' ↦ some (throws e')
    | goes_on depth' tokens' e' ↦ compile_body fuel depth' tokens' e'
  ]

  unfoldable pub compile_function : List Token → Emission → Option Round
  unfolding function_name function_head is_at compile_body
  compile_function tokens e =
      let named = function_name tokens e in
      let rest = function_head named.0 in
      if is_at token_lbrace rest
      then compile_body (length rest) 1 (drop 1 rest) named.1
      else some (goes_on 0 rest named.1)

  -- A round of the loop over the parts of a contract.
  unfoldable pub part : Token → List Token → Emission → Option Round
  unfolding is_at state_variable skip_if compile_function
  part t tokens e =
      if is_at token_state (t ∷ tokens)
      then (let r = state_variable tokens e in some (goes_on 0 r.0 r.1))
      else if is_at token_pub (t ∷ tokens)
      then compile_function (drop 1 tokens) e
      else if is_at token_fn (t ∷ tokens)
      then compile_function tokens e
      else some (goes_on 0 tokens e)

  -- That loop, on fuel: none is that it has not ended.
  unfoldable pub compile_parts : ℕ → List Token → Emission → Option Round
  unfolding is_at part
  compile_parts fuel [] e = some (goes_on 0 [] e)
  compile_parts zero (t ∷ tokens) e = none
  compile_parts (suc fuel) (t ∷ tokens) e =
      if is_at token_eof (t ∷ tokens) || is_at token_rbrace (t ∷ tokens)
      then some (goes_on 0 (t ∷ tokens) e)
      else elim (part t tokens e) [
        | none ↦ none
        | some r ↦ (elim r [
          | throws e' ↦ some (throws e')
          | goes_on depth tokens' e' ↦ compile_parts fuel tokens' e'
        ])
      ]

  unfoldable pub result_of : Round → CompilationResult
  unfolding hex_encode
  result_of (throws e) = record {
    error = some compilation_error;
    bytecode = [];
    hex_bytecode = [];
    storage_layout = [];
    functions = e.functions;
    estimated_deployment_gas = 0;
  }
  result_of (goes_on depth tokens e) = record {
    error = none;
    bytecode = e.bytecode ++ (header.code op_stop ∷ []);
    hex_bytecode = b'0' ∷ b'x' ∷ hex_encode (e.bytecode ++ (header.code op_stop ∷ []));
    storage_layout = e.storage_map;
    functions = e.functions;
    estimated_deployment_gas = e.est_gas;
  }

  -- The tokens end with TOKEN_EOF, so a single token is that.
  unfoldable pub compile_tokens : List Token → Option CompilationResult
  unfolding contract_head compile_parts result_of
  compile_tokens tokens =
      if leb (length tokens) 1
      then some empty_result
      else elim (compile_parts (length tokens) (contract_head tokens) no_emission) [
        | none ↦ none
        | some r ↦ some (result_of r)
      ]

  unfoldable pub compile : Bytes → Option CompilationResult
  unfolding tokenize compile_tokens
  compile source = elim (tokenize source) [ none ↦ none | some tokens ↦ compile_tokens tokens ]
