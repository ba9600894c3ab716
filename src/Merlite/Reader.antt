-- ===== src/Merlite/Reader.antt =====
-- How `merlite_compiler::compile` looks at its tokens: what it passes over, and the numbers it reads.
use mermai_blockchain.Base.{
  ℕ, ◌+◌, ◌-◌, ◌*◌, Bool, ◌||◌, Option, none, some, List, [], ◌∷◌, ltb, drop, if◌then◌else◌,
}
use mermai_blockchain.Base.Words.{u64_max}
use mermai_blockchain.Base.Key.{Bytes, bytes_key, nat_key, ◌==◌}
use mermai_blockchain.Merlite.{
  TokenType, token_contract, token_state, token_pub, token_fn, token_require, token_revert,
  token_return, token_if, token_else, token_caller, token_timestamp, token_uint256, token_address,
  token_bool, token_mapping, token_identifier, token_number, token_string, token_assign, token_plus,
  token_minus, token_star, token_slash, token_eq, token_neq, token_lt, token_gt, token_lte,
  token_gte, token_lbrace, token_rbrace, token_lparen, token_rparen, token_lbracket, token_rbracket,
  token_semicolon, token_comma, token_arrow, token_fat_arrow, token_eof, Token, between,
}

-- The value of the enumerator.
unfoldable pub type_code : TokenType → ℕ
type_code token_contract = 0
type_code token_state = 1
type_code token_pub = 2
type_code token_fn = 3
type_code token_require = 4
type_code token_revert = 5
type_code token_return = 6
type_code token_if = 7
type_code token_else = 8
type_code token_caller = 9
type_code token_timestamp = 10
type_code token_uint256 = 11
type_code token_address = 12
type_code token_bool = 13
type_code token_mapping = 14
type_code token_identifier = 15
type_code token_number = 16
type_code token_string = 17
type_code token_assign = 18
type_code token_plus = 19
type_code token_minus = 20
type_code token_star = 21
type_code token_slash = 22
type_code token_eq = 23
type_code token_neq = 24
type_code token_lt = 25
type_code token_gt = 26
type_code token_lte = 27
type_code token_gte = 28
type_code token_lbrace = 29
type_code token_rbrace = 30
type_code token_lparen = 31
type_code token_rparen = 32
type_code token_lbracket = 33
type_code token_rbracket = 34
type_code token_semicolon = 35
type_code token_comma = 36
type_code token_arrow = 37
type_code token_fat_arrow = 38
type_code token_eof = 39

-- `peek().type == type`
unfoldable pub is_at : TokenType → List Token → Bool
unfolding type_code
is_at type [] = type_code type == type_code token_eof
is_at type (t ∷ tokens) = type_code t.type == type_code type

-- `if (peek().type == type) consume();`
unfoldable pub skip_if : TokenType → List Token → List Token
unfolding is_at
skip_if type tokens = if is_at type tokens then drop 1 tokens else tokens

-- `while (cursor < tokens.size() && peek().type != type) consume();`
unfoldable pub skip_until : TokenType → List Token → List Token
unfolding type_code
skip_until type [] = []
skip_until type (t ∷ tokens) =
    let rest = skip_until type tokens in
    if type_code t.type == type_code type then t ∷ tokens else rest

-- `(` to `)`
unfoldable pub skip_brackets : List Token → List Token
unfolding skip_if skip_until
skip_brackets tokens = skip_if token_rparen (skip_until token_rparen (skip_if token_lparen tokens))

-- The digit that a byte stands for, or a number that is no digit in any base here.
unfoldable pub digit_value : ℕ → ℕ
digit_value c =
    if between b'0' b'9' c
    then c - b'0'
    else if between b'a' b'f' c
    then c - b'a' + 10
    else if between b'A' b'F' c
    then c - b'A' + 10
    else 99

-- The number that the digits at the start of a text form.
unfoldable pub digits : ℕ → ℕ → Bytes → ℕ
unfolding digit_value
digits base value [] = value
digits base value (c ∷ text) =
    let rest = digits base (value * base + digit_value c) text in
    if ltb (digit_value c) base then rest else value

unfoldable pub number_value : Bytes → ℕ
unfolding digits
number_value [] = 0
number_value (c ∷ []) = digits 10 0 (c ∷ [])
number_value (c ∷ d ∷ text) =
    if c == b'0'
    then (if d == b'x' || d == b'X' then digits 16 0 text else digits 8 0 (d ∷ text))
    else digits 10 0 (c ∷ d ∷ text)

-- `std::stoull(text, nullptr, 0)` of a number token; none is `std::out_of_range`.
unfoldable pub stoull : Bytes → Option ℕ
unfolding number_value
stoull text = if ltb u64_max (number_value text) then none else some (number_value text)

-- A state variable, from after the word `state`.
unfoldable pub state_type : List Token → List Token
unfolding is_at skip_brackets
state_type tokens =
    if is_at token_mapping tokens then skip_brackets (drop 1 tokens) else drop 1 tokens

unfoldable pub function_head : List Token → List Token
unfolding is_at skip_brackets
function_head tokens =
    let after = if is_at token_lparen tokens then skip_brackets tokens else tokens in
    if is_at token_arrow after then drop 2 after else after

unfoldable pub contract_head : List Token → List Token
unfolding is_at skip_if
contract_head tokens =
    if is_at token_contract tokens
    then skip_if token_lbrace (skip_if token_identifier (drop 1 tokens))
    else tokens
