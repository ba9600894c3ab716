-- ===== src/Rpc.antt =====
-- The text of requests and responses: the anonymous namespace of src/rpc/mermai_rpc.cpp. A position
-- in the body of a request is the text from there on.
pub mod Server
pub mod RoundTrip
mod Tests
use mermai_blockchain.Base.{
  ℕ, zero, suc, ◌+◌, ◌-◌, ◌*◌, ◌%◌, ◌^◌, Bool, true, false, ◌&&◌, ◌||◌, Option, none, some, List,
  [], ◌∷◌, ◌++◌, ltb, leb, is_empty, if◌then◌else◌,
}
use mermai_blockchain.Base.Key.{Bytes, bytes_key, nat_key, ◌==◌}
use mermai_blockchain.Base.Text.{text}
use mermai_blockchain.Base.Words.{u64_mod, u64_max}
use mermai_blockchain.Merlite.Reader.{digit_value, digits}

-- One character of a JSON string.
unfoldable pub json_char : ℕ → Bytes
json_char c =
    if c == b'"'
    then b'\\' ∷ b'"' ∷ []
    else if c == b'\\'
    then b'\\' ∷ b'\\' ∷ []
    else if c == 8
    then b'\\' ∷ b'b' ∷ []
    else if c == 12
    then b'\\' ∷ b'f' ∷ []
    else if c == 10
    then b'\\' ∷ b'n' ∷ []
    else if c == 13
    then b'\\' ∷ b'r' ∷ []
    else if c == 9
    then b'\\' ∷ b't' ∷ []
    else c ∷ []

unfoldable pub json_chars : Bytes → Bytes
unfolding json_char
json_chars [] = b'"' ∷ []
json_chars (c ∷ input) = json_char c ++ json_chars input

unfoldable pub json_string : Bytes → Bytes
unfolding json_chars
json_string input = b'"' ∷ json_chars input

-- `body.rfind(prefix, 0) == 0`, with what follows the prefix.
unfoldable pub strip_prefix : Bytes → Bytes → Option Bytes
strip_prefix [] body = some body
strip_prefix (p ∷ prefix) [] = none
strip_prefix (p ∷ prefix) (c ∷ body) = if p == c then strip_prefix prefix body else none

-- `body.find(needle)`, with what follows the first place.
unfoldable pub after_text : Bytes → Bytes → Option Bytes
unfolding strip_prefix
after_text needle [] = none
after_text needle (c ∷ body) =
    let later = after_text needle body in
    elim (strip_prefix needle (c ∷ body)) [ none ↦ later | some rest ↦ some rest ]

-- `body.find(c)`, with what stands before it and after it.
unfoldable pub cut_at : ℕ → Bytes → Option (Bytes × Bytes)
cut_at c [] = none
cut_at c (d ∷ body) =
    let later = cut_at c body in
    if d == c
    then some ([], body)
    else elim later [ none ↦ none | some parts ↦ some (d ∷ parts.0, parts.1) ]

-- What follows the first `"key"` and the next colon.
unfoldable pub member_value : Bytes → Bytes → Option Bytes
unfolding after_text cut_at
member_value key body = elim (after_text (b'"' ∷ (key ++ (b'"' ∷ []))) body) [
  | none ↦ none
  | some rest ↦ (elim (cut_at b':' rest) [ none ↦ none | some parts ↦ some parts.1 ])
]

-- A text up to the next quotation mark.
unfoldable pub quoted : Bytes → Option Bytes
unfolding cut_at
quoted body = elim (cut_at b'"' body) [ none ↦ none | some parts ↦ some parts.0 ]

unfoldable pub request_string : Bytes → Bytes → Bytes
unfolding member_value quoted
request_string body key = elim (member_value key body) [
  | none ↦ []
  | some rest ↦ (elim (cut_at b'"' rest) [
    | none ↦ []
    | some parts ↦ (elim (quoted parts.1) [ none ↦ [] | some value ↦ value ])
  ])
]

unfoldable pub skip_blanks : Bytes → Bytes
skip_blanks [] = []
skip_blanks (c ∷ body) =
    if c == 32 || (c == 9 || (c == 13 || c == 10)) then skip_blanks body else c ∷ body

-- The longest start of a text whose characters all pass a test.
unfoldable pub span_of : (ℕ → Bool) → Bytes → Bytes
span_of test [] = []
span_of test (c ∷ body) = let rest = span_of test body in if test c then c ∷ rest else []

abbrev pub is_decimal : ℕ → Bool
is_decimal c = leb b'0' c && leb c b'9'

unfoldable pub request_id : Bytes → Bytes
unfolding member_value skip_blanks quoted span_of
request_id body = elim (member_value (text "id") body) [
  | none ↦ text "null"
  | some rest ↦ (elim (skip_blanks rest) [
    | [] ↦ text "null"
    | c ∷ more ↦
        if c == b'"'
        then elim (quoted more) [ none ↦ text "null" | some value ↦ b'"' ∷ (value ++ (b'"' ∷ [])) ]
        else span_of (λ d. is_decimal d || (d == b'-' || d == b'.')) (c ∷ more)
  ])
]

-- `strtoull` after the sign: none where there is no digit or the number is out of range.
unfoldable pub unsigned_of : ℕ → Bytes → Option ℕ
unfolding digit_value digits
unsigned_of base [] = none
unsigned_of base (c ∷ rest) =
    if ltb (digit_value c) base && leb (digits base 0 (c ∷ rest)) u64_max
    then some (digits base 0 (c ∷ rest))
    else none

-- The prefix that base 16 allows, if a digit follows it.
unfoldable pub strip_0x : Bytes → Bytes
unfolding digit_value
strip_0x (c ∷ d ∷ e ∷ rest) =
    if c == b'0' && ((d == b'x' || d == b'X') && ltb (digit_value e) 16)
    then e ∷ rest
    else c ∷ d ∷ e ∷ rest
strip_0x other = other

unfoldable pub skip_space : Bytes → Bytes
skip_space [] = []
skip_space (c ∷ rest) = if c == 32 || (leb 9 c && leb c 13) then skip_space rest else c ∷ rest

-- `std::stoull(number, nullptr, base)` in base 10 or 16: none is an exception.
unfoldable pub stoull_base : ℕ → Bytes → Option ℕ
unfolding unsigned_of strip_0x skip_space
stoull_base base number =
    let magnitude = λ (t : Bytes). unsigned_of base (if base == 16 then strip_0x t else t) in
    elim (skip_space number) [
      | [] ↦ none
      | c ∷ rest ↦
          if c == b'-'
          then elim (magnitude rest) [ none ↦ none | some n ↦ some ((u64_mod - n) % u64_mod) ]
          else if c == b'+'
          then magnitude rest
          else magnitude (c ∷ rest)
    ]

-- The number of a text, with what the `catch` returns.
unfoldable pub number_or_zero : Bytes → ℕ
unfolding stoull_base strip_prefix
number_or_zero number =
    let hex = stoull_base 16 number in
    let decimal = stoull_base 10 number in
    elim (strip_prefix (text "0x") number) [
      | some rest ↦ (elim hex [ none ↦ 0 | some n ↦ n ])
      | none ↦ (elim decimal [ none ↦ 0 | some n ↦ n ])
    ]

unfoldable pub request_number : Bytes → Bytes → ℕ
unfolding member_value skip_blanks quoted span_of number_or_zero
request_number body key = elim (member_value key body) [
  | none ↦ 0
  | some rest ↦ (elim (skip_blanks rest) [
    | [] ↦ 0
    | c ∷ more ↦
        if c == b'"'
        then elim (quoted more) [ none ↦ 0 | some value ↦ number_or_zero value ]
        else number_or_zero
            (span_of (λ d. is_decimal d || (d == b'x' || ltb (digit_value d) 16)) (c ∷ more))
  ])
]

-- The loop over pairs of characters: a pair that is no number is passed over.
unfoldable pub hex_pairs : Bytes → Bytes
hex_pairs [] = []
hex_pairs (c ∷ []) = []
hex_pairs (c ∷ d ∷ hex) =
    let rest = hex_pairs hex in
    elim (stoull_base 16 (c ∷ d ∷ [])) [ none ↦ rest | some n ↦ (n % 256) ∷ rest ]

unfoldable pub hex_bytes : Bytes → Bytes
unfolding hex_pairs
hex_bytes hex = elim (strip_prefix (text "0x") hex) [
  | none ↦ hex_pairs hex
  | some rest ↦ hex_pairs rest
]
