-- ===== src/Merlite/Lexer.antt =====
-- The scanner: tokenize of src/vm/merlite_compiler.cpp.
use mermai_blockchain.Base.{
  ℕ, zero, suc, ◌+◌, Bool, false, ◌&&◌, ◌||◌, not, Option, none, some, List, [], ◌∷◌, length,
  if◌then◌else◌,
}
use mermai_blockchain.Base.Words.{add32}
use mermai_blockchain.Base.Key.{Bytes, bytes_key, nat_key, ◌==◌}
use mermai_blockchain.Merlite.{
  token_number, token_string, token_eof, Token, is_space, is_digit, is_alpha, is_xdigit, is_word,
  span, keyword, double_type, single_type,
}

-- Where the scanner stands.
pub record Cursor : Type 0 where
  pub rest : Bytes
  pub line : ℕ
  pub col : ℕ

-- What one round of the loop adds to the tokens, and where it ends.
abbrev pub Scan : Type 0
Scan = Option Token × Cursor

unfoldable pub at_char : ℕ → Bytes → Bool
at_char c [] = false
at_char c (d ∷ text) = d == c

unfoldable pub scan_word : ℕ → Bytes → ℕ → ℕ → Scan
unfolding span keyword
scan_word c text line col =
    let r = span is_word text in
    let word = c ∷ r.0 in
    (
      some (record { type = keyword word; text = word; line = line; column = col }),
      record { rest = r.1; line = line; col = add32 col (length word) },
    )

-- A number, in decimal, or in hexadecimal after 0x or 0X.
unfoldable pub number_parts : ℕ → Bytes → Bytes × Bytes
unfolding span
number_parts c [] = (c ∷ [], [])
number_parts c (d ∷ text) =
    let hex = span is_xdigit text in
    let decimal = span is_digit (d ∷ text) in
    if c == b'0' && (d == b'x' || d == b'X')
    then (c ∷ d ∷ hex.0, hex.1)
    else (c ∷ decimal.0, decimal.1)

unfoldable pub scan_number : ℕ → Bytes → ℕ → ℕ → Scan
unfolding number_parts
scan_number c text line col =
    let r = number_parts c text in
    (
      some (record { type = token_number; text = r.0; line = line; column = col }),
      record { rest = r.1; line = line; col = add32 col (length r.0) },
    )

unfoldable pub count_lines : Bytes → ℕ
count_lines [] = 0
count_lines (c ∷ text) = if c == 10 then suc (count_lines text) else count_lines text

-- A string, from after its opening quote; its token has the line and the column of its end.
unfoldable pub scan_string : Bytes → ℕ → ℕ → Scan
unfolding span count_lines
scan_string text line col =
    let r = span (λ c. not (c == b'"')) text in
    let line' = add32 line (count_lines r.0) in
    let col' = add32 col (length r.0 + 1) in
    elim r.1 [
      | [] ↦ (
        some (record { type = token_string; text = r.0; line = line'; column = col' }),
        record { rest = []; line = line'; col = col' },
      )
      | quote ∷ after ↦ (
        some (record { type = token_string; text = r.0; line = line'; column = add32 col' 1 }),
        record { rest = after; line = line'; col = add32 col' 1 },
      )
    ]

-- An operator, or a character that is passed over.
unfoldable pub scan_single : ℕ → Bytes → ℕ → ℕ → Scan
unfolding single_type
scan_single c text line col = (
  (elim (single_type c) [
    | none ↦ none
    | some t ↦ some (record { type = t; text = c ∷ []; line = line; column = col })
  ]),
  record { rest = text; line = line; col = add32 col 1 },
)

unfoldable pub scan_operator : ℕ → Bytes → ℕ → ℕ → Scan
unfolding double_type scan_single
scan_operator c [] line col = scan_single c [] line col
scan_operator c (d ∷ text) line col = elim (double_type c d) [
  | none ↦ scan_single c (d ∷ text) line col
  | some t ↦ (
    some (record { type = t; text = c ∷ d ∷ []; line = line; column = col }),
    record { rest = text; line = line; col = add32 col 2 },
  )
]

-- One round of the loop of `tokenize`, at the character `c`.
unfoldable pub scan : ℕ → Bytes → ℕ → ℕ → Scan
unfolding is_space at_char span is_alpha scan_word is_digit scan_number scan_string scan_operator
scan c text line col =
    if is_space c
    then (
      none,
      record {
        rest = text;
        line = if c == 10 then add32 line 1 else line;
        col = if c == 10 then 1 else add32 col 1;
      },
    )
    else if (c == b'/' && at_char b'/' text) || c == b';'
    then (none, record { rest = (span (λ d. not (d == 10)) text).1; line = line; col = col })
    else if is_alpha c || c == b'_'
    then scan_word c text line col
    else if is_digit c
    then scan_number c text line col
    else if c == b'"'
    then scan_string text line col
    else scan_operator c text line col

-- A round adds at most one token.
abbrev pub prepend : Option Token → List Token → List Token
prepend none tokens = tokens
prepend (some token) tokens = token ∷ tokens

-- The loop of `tokenize` on fuel: none is that it has not ended.
unfoldable pub tokenize_from : ℕ → Bytes → ℕ → ℕ → Option (List Token)
unfolding scan
tokenize_from fuel [] line col =
    some (record { type = token_eof; text = []; line = line; column = col } ∷ [])
tokenize_from zero (c ∷ text) line col = none
tokenize_from (suc fuel) (c ∷ text) line col =
    let r = scan c text line col in
    elim (tokenize_from fuel r.1.rest r.1.line r.1.col) [
      | none ↦ none
      | some tokens ↦ some (prepend r.0 tokens)
    ]

unfoldable pub tokenize : Bytes → Option (List Token)
unfolding tokenize_from
tokenize source = tokenize_from (length source) source 1 1
