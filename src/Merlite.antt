-- ===== src/Merlite.antt =====
-- The tokens of the Merlite language: include/mermai/merlite_compiler.hpp and
-- src/vm/merlite_compiler.cpp. The source is the list of its bytes from the cursor on.
pub mod Lexer
pub mod Reader
pub mod Compile
mod Tests
use mermai_blockchain.Base.{
  ℕ, zero, suc, ◌+◌, ◌-◌, ◌%◌, Bool, true, false, ◌&&◌, ◌||◌, not, Option, none, some, List, [],
  ◌∷◌, ◌++◌, ltb, leb, length, if◌then◌else◌,
}
use mermai_blockchain.Base.Words.{add32}
use mermai_blockchain.Base.Key.{Bytes, bytes_key, nat_key, ◌==◌}

pub data TokenType : Type 0 where
  token_contract token_state token_pub token_fn token_require token_revert token_return : TokenType
  token_if token_else token_caller token_timestamp token_uint256 token_address : TokenType
  token_bool token_mapping token_identifier token_number token_string token_assign : TokenType
  token_plus token_minus token_star token_slash token_eq token_neq token_lt token_gt : TokenType
  token_lte token_gte token_lbrace token_rbrace token_lparen token_rparen : TokenType
  token_lbracket token_rbracket token_semicolon token_comma token_arrow : TokenType
  token_fat_arrow token_eof : TokenType

pub record Token : Type 0 where
  pub type : TokenType
  pub text : Bytes
  pub line : ℕ
  pub column : ℕ

-- The tests of <cctype>, in the "C" locale.
abbrev pub between : ℕ → ℕ → ℕ → Bool
between low high c = leb low c && leb c high

unfoldable pub is_space : ℕ → Bool
is_space c = c == 32 || between 9 13 c

unfoldable pub is_digit : ℕ → Bool
is_digit c = between b'0' b'9' c

unfoldable pub is_alpha : ℕ → Bool
is_alpha c = between b'a' b'z' c || between b'A' b'Z' c

unfoldable pub is_xdigit : ℕ → Bool
is_xdigit c = between b'0' b'9' c || (between b'a' b'f' c || between b'A' b'F' c)

-- `std::isalnum(c) || c == '_'`
unfoldable pub is_word : ℕ → Bool
unfolding is_alpha is_digit
is_word c = is_alpha c || (is_digit c || c == b'_')

-- The loops `while (i < source.size() && test(source[i]))`: what they pass over, and the rest.
unfoldable pub span : (ℕ → Bool) → Bytes → Bytes × Bytes
span test [] = ([], [])
span test (c ∷ text) = let r = span test text in if test c then (c ∷ r.0, r.1) else ([], c ∷ text)

-- The keywords.
unfoldable pub keyword : Bytes → TokenType
keyword word =
    if word == (b'c' ∷ b'o' ∷ b'n' ∷ b't' ∷ b'r' ∷ b'a' ∷ b'c' ∷ b't' ∷ [])
    then token_contract
    else if word == (b's' ∷ b't' ∷ b'a' ∷ b't' ∷ b'e' ∷ [])
    then token_state
    else if word == (b'p' ∷ b'u' ∷ b'b' ∷ [])
    then token_pub
    else if word == (b'f' ∷ b'n' ∷ [])
    then token_fn
    else if word == (b'r' ∷ b'e' ∷ b'q' ∷ b'u' ∷ b'i' ∷ b'r' ∷ b'e' ∷ [])
    then token_require
    else if word == (b'r' ∷ b'e' ∷ b'v' ∷ b'e' ∷ b'r' ∷ b't' ∷ [])
    then token_revert
    else if word == (b'r' ∷ b'e' ∷ b't' ∷ b'u' ∷ b'r' ∷ b'n' ∷ [])
    then token_return
    else if word == (b'i' ∷ b'f' ∷ [])
    then token_if
    else if word == (b'e' ∷ b'l' ∷ b's' ∷ b'e' ∷ [])
    then token_else
    else if word == (b'c' ∷ b'a' ∷ b'l' ∷ b'l' ∷ b'e' ∷ b'r' ∷ [])
    then token_caller
    else if word == (b't' ∷ b'i' ∷ b'm' ∷ b'e' ∷ b's' ∷ b't' ∷ b'a' ∷ b'm' ∷ b'p' ∷ [])
    then token_timestamp
    else if word == (b'u' ∷ b'i' ∷ b'n' ∷ b't' ∷ b'2' ∷ b'5' ∷ b'6' ∷ [])
    then token_uint256
    else if word == (b'a' ∷ b'd' ∷ b'd' ∷ b'r' ∷ b'e' ∷ b's' ∷ b's' ∷ [])
    then token_address
    else if word == (b'b' ∷ b'o' ∷ b'o' ∷ b'l' ∷ [])
    then token_bool
    else if word == (b'm' ∷ b'a' ∷ b'p' ∷ b'p' ∷ b'i' ∷ b'n' ∷ b'g' ∷ [])
    then token_mapping
    else token_identifier

-- The operators of two characters.
unfoldable pub double_type : ℕ → ℕ → Option TokenType
double_type c d =
    if c == b'=' && d == b'='
    then some token_eq
    else if c == b'!' && d == b'='
    then some token_neq
    else if c == b'<' && d == b'='
    then some token_lte
    else if c == b'>' && d == b'='
    then some token_gte
    else if c == b'-' && d == b'>'
    then some token_arrow
    else if c == b'=' && d == b'>'
    then some token_fat_arrow
    else none

-- The switch over the operators of one character; none is TOKEN_EOF.
unfoldable pub single_type : ℕ → Option TokenType
single_type c =
    if c == b'='
    then some token_assign
    else if c == b'+'
    then some token_plus
    else if c == b'-'
    then some token_minus
    else if c == b'*'
    then some token_star
    else if c == b'/'
    then some token_slash
    else if c == b'<'
    then some token_lt
    else if c == b'>'
    then some token_gt
    else if c == b'{'
    then some token_lbrace
    else if c == b'}'
    then some token_rbrace
    else if c == b'('
    then some token_lparen
    else if c == b')'
    then some token_rparen
    else if c == b'['
    then some token_lbracket
    else if c == b']'
    then some token_rbracket
    else if c == b';'
    then some token_semicolon
    else if c == b','
    then some token_comma
    else none
