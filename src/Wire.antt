-- ===== src/Wire.antt =====
-- The binary payload format: the helpers in the anonymous namespace at the head of
-- src/core/mermai_blockchain.cpp. A writer returns the bytes that the source appends to `output`.
-- A reader is given the part of `input` that begins at `offset`, and returns the part that begins
-- at the new offset, so `offset + size > input.size()` is `length rest < size`.
pub mod Values
use mermai_blockchain.Base.{
  ℕ, zero, suc, ◌+◌, ◌*◌, ◌/◌, ◌%◌, ◌^◌, Bool, true, false, ◌||◌, List, [], ◌∷◌, ◌++◌, ltb, leb,
  length, take, drop, is_empty, if◌then◌else◌,
}
use mermai_blockchain.Base.Words.{u32_mod, u64_mod}
use mermai_blockchain.Base.Key.{Bytes}

-- The messages of the `std::runtime_error`s.
pub data WireError : Type 0 where
  unexpected_end : WireError
  invalid_byte_payload_size : WireError
  invalid_string_payload_size : WireError
  too_many_inputs : WireError
  too_many_outputs : WireError
  trailing_transaction_data : WireError
  too_many_block_transactions : WireError
  trailing_block_data : WireError

-- What a call returns, or the exception that it throws.
pub data Result {ℓ} (A : Type ℓ) : Type ℓ where
  err : WireError → Result A
  ok : A → Result A

infixl 5 ◌>>=◌ ◌>>◌
abbrev pub ◌>>=◌ {ℓ κ} : {A : Type ℓ} {B : Type κ} → Result A → (A → Result B) → Result B
err thrown >>= next = err thrown
ok value >>= next = next value

abbrev pub ◌>>◌ {ℓ} : {B : Type ℓ} → Result (Unit {0}) → Result B → Result B
err thrown >> next = err thrown
ok done >> next = next

abbrev pub throw_if : Bool → WireError → Result (Unit {0})
throw_if true e = err e
throw_if false e = ok tt

abbrev pub Reader {ℓ} : Type ℓ → Type ℓ
Reader A = Bytes → Result (A × Bytes)

abbrev pub max_serialized_string : ℕ
max_serialized_string = 64 * 1024

abbrev pub max_serialized_bytes : ℕ
max_serialized_bytes = 16 * 1024

abbrev pub max_transaction_inputs : ℕ
max_transaction_inputs = 1000

abbrev pub max_transaction_outputs : ℕ
max_transaction_outputs = 1000

abbrev pub max_block_transactions : ℕ
max_block_transactions = 10000

-- The loop of `write_value`, over the number of bytes that are left: the most significant first.
unfoldable pub write_value : ℕ → ℕ → Bytes
write_value zero value = []
write_value (suc left) value = (value / 2 ^ (left * 8) % 256) ∷ write_value left value

-- The loop of `read_value<T>`: `modulus` is that of `T`, and the counter the number of bytes left.
unfoldable pub read_loop : ℕ → ℕ → ℕ → Reader ℕ
read_loop modulus zero value input = ok (value, input)
read_loop modulus (suc left) value [] = err unexpected_end
read_loop modulus (suc left) value (b ∷ input) =
    read_loop modulus left (value * 256 % modulus + b % 256) input

unfoldable pub read_value : ℕ → ℕ → Reader ℕ
unfolding read_loop
read_value modulus size input =
    if ltb (length input) size then err unexpected_end else read_loop modulus size 0 input

abbrev pub write_u32 : ℕ → Bytes
write_u32 = write_value 4

abbrev pub write_u64 : ℕ → Bytes
write_u64 = write_value 8

abbrev pub read_u32 : Reader ℕ
read_u32 = read_value u32_mod 4

abbrev pub read_u64 : Reader ℕ
read_u64 = read_value u64_mod 8

unfoldable pub write_bytes : Bytes → Bytes
write_bytes bytes = write_u32 (length bytes % u32_mod) ++ bytes

unfoldable pub read_bytes : Reader Bytes
read_bytes input = do
  (size, input') ← read_u32 input
  throw_if (ltb max_serialized_bytes size || ltb (length input') size) invalid_byte_payload_size
  ok (take size input', drop size input')

unfoldable pub write_string : Bytes → Bytes
write_string text = write_u32 (length text % u32_mod) ++ text

unfoldable pub read_string : Reader Bytes
read_string input = do
  (size, input') ← read_u32 input
  throw_if (ltb max_serialized_string size || ltb (length input') size) invalid_string_payload_size
  ok (take size input', drop size input')

module _ {ℓ} {A : Type ℓ} where
  -- The loop that writes the elements of a vector in turn.
  unfoldable pub write_items : (A → Bytes) → List A → Bytes
  write_items write [] = []
  write_items write (a ∷ items) = write a ++ write_items write items

  -- The loop that reads `count` elements in turn.
  unfoldable pub read_items : ℕ → Reader A → Reader (List A)
  read_items zero read input = ok ([], input)
  read_items (suc count) read input = do
    (a, input') ← read input
    (items, input'') ← read_items count read input'
    ok (a ∷ items, input'')
