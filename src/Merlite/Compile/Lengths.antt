-- ===== src/Merlite/Compile/Lengths.antt =====
-- No step of the compiler reads more than there is: what it leaves is no longer than what it is given.
use mermai_blockchain.Base.{
  ℕ, zero, suc, ◌+◌, ◌≤◌, ◌≡◌, refl, Bool, true, false, ◌&&◌, ◌||◌, not, Option, none, some, List,
  [], ◌∷◌, arith, length, length-drop, if◌then◌else◌,
}
use mermai_blockchain.Base.Key.{Bytes, bytes_key, nat_key, ◌==◌}
use mermai_blockchain.Merlite.{
  TokenType, token_rparen, token_lparen, Token, span, is_word, is_xdigit, is_digit, is_space,
  is_alpha,
}
use mermai_blockchain.Merlite.Lexer.{
  Scan, at_char, scan_word, number_parts, scan_number, scan_string, scan_single, scan_operator,
  scan, prepend, tokenize_from,
}
use mermai_blockchain.Merlite.Reader.{skip_if, skip_until, skip_brackets}

length-span : (test : ℕ → Bool) (text : Bytes) → length (span test text).1 ≤ length text
unfolding span
length-span test [] = omega arith
length-span test (c ∷ text) = ground (arith, length-span test text)

length-number_parts : (c : ℕ) (text : Bytes) → length (number_parts c text).1 ≤ length text
unfolding number_parts
length-number_parts c [] = omega arith
length-number_parts c (d ∷ text) =
    ground (arith, length-span is_xdigit text, length-span is_digit (d ∷ text))

length-scan_string :
    (text : Bytes) (line col : ℕ) → length (scan_string text line col).1.rest ≤ length text
unfolding scan_string
length-scan_string text line col = ground (arith, length-span (λ c. not (c == b'"')) text)

length-scan_operator :
    (c : ℕ) (text : Bytes) (line col : ℕ)
    → length (scan_operator c text line col).1.rest ≤ length text
unfolding scan_operator scan_single
length-scan_operator c [] line col = omega arith
length-scan_operator c (d ∷ text) line col = ground arith

-- The scan leaves at most so many bytes.
abbrev Leaves : ℕ → Scan → Type 0
Leaves n r = length r.1.rest ≤ n

if-Leaves :
    (n : ℕ) (test : Bool) (r s : Scan) → Leaves n r → Leaves n s → Leaves n (if test then r else s)
if-Leaves n true r s h k = h
if-Leaves n false r s h k = k

length-scan : (c : ℕ) (text : Bytes) (line col : ℕ) → Leaves (length text) (scan c text line col)
unfolding scan scan_word scan_number
length-scan c text line col =
    let n = length text in
    if-Leaves n (is_space c) _ _ (omega arith) (
      if-Leaves n ((c == b'/' && at_char b'/' text) || c == b';') _ _
        (length-span (λ d. not (d == 10)) text)
        (if-Leaves n (is_alpha c || c == b'_') _ _ (length-span is_word text) (
          if-Leaves n (is_digit c) _ _ (length-number_parts c text) (
            if-Leaves n (c == b'"') _ _ (length-scan_string text line col)
              (length-scan_operator c text line col)))))

tokenize_from_step :
    (fuel c : ℕ) (text : Bytes) (line col : ℕ) (tokens : List Token)
    → (let r = scan c text line col in tokenize_from fuel r.1.rest r.1.line r.1.col ≡ some tokens)
    → tokenize_from (suc fuel) (c ∷ text) line col ≡ some (prepend (scan c text line col).0 tokens)
unfolding tokenize_from
tokenize_from_step fuel c text line col tokens e = rw (e, tokenize_from) refl

length-prepend :
    (o : Option Token) (tokens : List Token) → length (prepend o tokens) ≤ suc (length tokens)
length-prepend none tokens = omega arith
length-prepend (some t) tokens = omega arith

pub tokenize_from-ends :
    (fuel : ℕ) (text : Bytes) (line col : ℕ)
    → length text ≤ fuel
    → (tokens : List Token) × (tokenize_from fuel text line col ≡ some tokens)
      × (length tokens ≤ length text + 1)
unfolding tokenize_from
tokenize_from-ends fuel [] line col h = (_, refl, omega arith)
tokenize_from-ends zero (c ∷ text) line col h = absurd (omega arith)
tokenize_from-ends (suc fuel) (c ∷ text) line col h =
    let r = scan c text line col in
    let (tokens, reached, short) =
      tokenize_from-ends fuel r.1.rest r.1.line r.1.col
        (omega (arith, length-scan c text line col)) in
    (
      prepend r.0 tokens,
      tokenize_from_step fuel c text line col tokens reached,
      omega (arith, length-prepend r.0 tokens, length-scan c text line col),
    )

pub length-skip_if :
    (type : TokenType) (tokens : List Token) → length (skip_if type tokens) ≤ length tokens
unfolding skip_if
length-skip_if type tokens = ground (arith, length-drop 1 tokens)

pub length-skip_until :
    (type : TokenType) (tokens : List Token) → length (skip_until type tokens) ≤ length tokens
unfolding skip_until
length-skip_until type [] = omega arith
length-skip_until type (t ∷ tokens) = ground (arith, length-skip_until type tokens)

pub length-skip_brackets : (tokens : List Token) → length (skip_brackets tokens) ≤ length tokens
unfolding skip_brackets
length-skip_brackets tokens =
    let a = skip_if token_lparen tokens in
    let b = skip_until token_rparen a in
    omega (
      arith,
      length-skip_if token_lparen tokens,
      length-skip_until token_rparen a,
      length-skip_if token_rparen b,
    )
