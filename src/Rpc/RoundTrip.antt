-- ===== src/Rpc/RoundTrip.antt =====
-- What is written is read back: bytes in hexadecimal, and strings in JSON.
use mermai_blockchain.Base.{
  ℕ, ◌+◌, ◌*◌, ◌/◌, ◌%◌, ◌<◌, ◌≡◌, ◌≢◌, refl, ap, ◌∙◌, Bool, false, ◌&&◌, ◌||◌, not, ltb,
  Bool-cases, inl, inr, Option, none, some, [], ◌∷◌, ◌++◌, arith, All, if◌then◌else◌, append_assoc,
}
use mermai_blockchain.Base.Key.{Bytes, nat_key, ◌==◌}
use mermai_blockchain.Base.Text.{text}
use mermai_blockchain.Crypto.{hex_digit, hex_encode}
use mermai_blockchain.Merlite.Reader.{digit_value, digits}
use mermai_blockchain.Rpc.{
  json_char, json_chars, json_string, strip_prefix, unsigned_of, strip_0x, skip_space, stoull_base,
  hex_pairs, hex_bytes,
}

digit_value-hex_digit : (d : ℕ) → d < 16 → digit_value (hex_digit d) ≡ d
unfolding digit_value hex_digit
digit_value-hex_digit d h = ground arith

-- A digit is no white space, no sign and no `x`.
hex_digit_plain : (d : ℕ) → d < 16 → (47 < hex_digit d) × (hex_digit d < 103)
unfolding hex_digit
hex_digit_plain d h = ground arith

digits_two :
    (c d : ℕ)
    → digit_value c < 16
    → digit_value d < 16
    → digits 16 0 (c ∷ d ∷ []) ≡ digit_value c * 16 + digit_value d
unfolding digits
digits_two c d hc hd = ground arith

unsigned_of_two :
    (c d : ℕ)
    → digit_value c < 16
    → digit_value d < 16
    → unsigned_of 16 (c ∷ d ∷ []) ≡ some (digit_value c * 16 + digit_value d)
unfolding unsigned_of
unsigned_of_two c d hc hd = ground (arith, digits_two c d hc hd)

stoull_base_two :
    (c d : ℕ)
    → 47 < c
    → digit_value c < 16
    → digit_value d < 16
    → stoull_base 16 (c ∷ d ∷ []) ≡ some (digit_value c * 16 + digit_value d)
unfolding stoull_base skip_space strip_0x
stoull_base_two c d plain hc hd = ground (arith, unsigned_of_two c d hc hd)

abbrev pub IsByte : ℕ → Type 0
IsByte b = b < 256

hex_pairs_two :
    (c d n : ℕ) (rest : Bytes)
    → stoull_base 16 (c ∷ d ∷ []) ≡ some n
    → hex_pairs (c ∷ d ∷ rest) ≡ (n % 256) ∷ hex_pairs rest
unfolding hex_pairs
hex_pairs_two c d n rest e = ground (arith, e)

hex_pairs-hex_encode : (bytes : Bytes) → All IsByte bytes → hex_pairs (hex_encode bytes) ≡ bytes
unfolding hex_encode
hex_pairs-hex_encode [] h = unfold hex_pairs in refl
hex_pairs-hex_encode (b ∷ bytes) h =
    let high = digit_value-hex_digit (b / 16) (omega arith) in
    let low = digit_value-hex_digit (b % 16) (omega arith) in
    let read =
      stoull_base_two (hex_digit (b / 16)) (hex_digit (b % 16))
        (hex_digit_plain (b / 16) (omega arith)).0 (omega (arith, high)) (omega (arith, low)) in
    hex_pairs_two (hex_digit (b / 16)) (hex_digit (b % 16))
      (digit_value (hex_digit (b / 16)) * 16 + digit_value (hex_digit (b % 16))) (hex_encode bytes)
      read
    ∙ rw (high, low, hex_pairs-hex_encode bytes h.1) (ap (λ c. c ∷ bytes) (omega arith))

-- The prefix `0x` is no start of a text of hexadecimal digits.
no_prefix : (bytes : Bytes) → All IsByte bytes → strip_prefix (text "0x") (hex_encode bytes) ≡ none
unfolding strip_prefix hex_encode text
no_prefix [] h = refl
no_prefix (b ∷ bytes) h =
    ground (arith, hex_digit_plain (b % 16) (omega arith), hex_digit_plain (b / 16) (omega arith))

prefix_stripped : (rest : Bytes) → strip_prefix (text "0x") (text "0x" ++ rest) ≡ some rest
unfolding strip_prefix text
prefix_stripped rest = refl

-- Bytes that are written in hexadecimal, with or without the prefix `0x`, are read back.
pub hex_bytes-hex_encode :
    (bytes : Bytes)
    → All IsByte bytes
    → (hex_bytes (hex_encode bytes) ≡ bytes) × (hex_bytes (text "0x" ++ hex_encode bytes) ≡ bytes)
unfolding hex_bytes
hex_bytes-hex_encode bytes h = (
  rw (no_prefix bytes h, hex_bytes) (hex_pairs-hex_encode bytes h),
  rw (prefix_stripped (hex_encode bytes), hex_bytes) (hex_pairs-hex_encode bytes h),
)

-- A reader of JSON strings as RFC 8259 has them, to compare `json_string` with: what stands for a
-- character after a backslash, without `\u` and `\/`, which `json_string` does not write.
unfoldable pub unescape : ℕ → Option ℕ
unescape c =
    if c == b'"'
    then some b'"'
    else if c == b'\\'
    then some b'\\'
    else if c == b'b'
    then some 8
    else if c == b'f'
    then some 12
    else if c == b'n'
    then some 10
    else if c == b'r'
    then some 13
    else if c == b't'
    then some 9
    else none

unfoldable pub with_first : ℕ → Option (Bytes × Bytes) → Option (Bytes × Bytes)
with_first c none = none
with_first c (some (value, rest)) = some (c ∷ value, rest)

-- The string that begins after a quotation mark, with what follows the closing mark. A control
-- character in it is refused.
unfoldable pub read_json_chars : Bytes → Option (Bytes × Bytes)
unfolding unescape
read_json_chars [] = none
read_json_chars (c ∷ []) = if c == b'"' then some ([], []) else none
read_json_chars (c ∷ d ∷ rest) =
    let escaped = read_json_chars rest in
    let plain = read_json_chars (d ∷ rest) in
    if c == b'"'
    then some ([], d ∷ rest)
    else if c == b'\\'
    then elim (unescape d) [ none ↦ none | some e ↦ with_first e escaped ]
    else if ltb c 32
    then none
    else with_first c plain

unfoldable pub read_json_string : Bytes → Option (Bytes × Bytes)
unfolding read_json_chars
read_json_string [] = none
read_json_string (c ∷ rest) = if c == b'"' then read_json_chars rest else none

-- The control characters but for the five that have an escape.
abbrev pub is_unescaped : ℕ → Bool
is_unescaped c = ltb c 32 && not (c == 8 || (c == 9 || (c == 10 || (c == 12 || c == 13))))

unfoldable pub has_unescaped : Bytes → Bool
has_unescaped [] = false
has_unescaped (c ∷ input) = is_unescaped c || has_unescaped input

-- What is written for a character is read as that character, or refused.
read_json_char :
    (c : ℕ) (more : Bytes)
    → more ≢ []
    → read_json_chars (json_char c ++ more)
      ≡ (if is_unescaped c then none else with_first c (read_json_chars more))
unfolding read_json_chars json_char
read_json_char c [] n = absurd (n refl)
read_json_char c (d ∷ more) n = ground arith

json_chars-ne-nil : (input rest : Bytes) → json_chars input ++ rest ≢ []
unfolding json_chars json_char
json_chars-ne-nil [] rest e = cc
json_chars-ne-nil (c ∷ input) rest e = ground arith

read_json_chars-json_chars :
    (input rest : Bytes)
    → read_json_chars (json_chars input ++ rest)
      ≡ (if has_unescaped input then none else some (input, rest))
unfolding json_chars with_first has_unescaped
read_json_chars-json_chars [] [] = unfold read_json_chars in refl
read_json_chars-json_chars [] (c ∷ rest) = unfold read_json_chars in refl
read_json_chars-json_chars (c ∷ input) rest =
    let more = json_chars input ++ rest in
    let read = read_json_char c more (json_chars-ne-nil input rest) in
    let tail = read_json_chars-json_chars input rest in
    ap read_json_chars (append_assoc (json_char c) (json_chars input) rest)
    ∙ read
    ∙ (elim (Bool-cases (is_unescaped c)) [
      | inl control ↦ rw (control, has_unescaped) refl
      | inr plain ↦ (elim (Bool-cases (has_unescaped input)) [
        | inl later ↦ rw (tail, plain, later, has_unescaped) refl
        | inr none_left ↦ rw (tail, plain, none_left, has_unescaped) refl
      ])
    ])

-- A reader of JSON strings after RFC 8259 that meets a string as `json_string` writes it reads
-- exactly that string, whatever follows, so no character of it ends the string early or becomes
-- another; but if the string has a control character other than the five with an escape of their
-- own, the reader refuses what is written.
pub read_json_string-json_string :
    (input rest : Bytes)
    → read_json_string (json_string input ++ rest)
      ≡ (if has_unescaped input then none else some (input, rest))
unfolding read_json_string json_string
read_json_string-json_string input rest = read_json_chars-json_chars input rest
