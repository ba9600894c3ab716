-- ===== src/Vm/Words.antt =====
-- The arithmetic on words of src/vm/mermai_vm.cpp.
pub mod Value
pub mod Shapes
use mermai_blockchain.Base.{
  ℕ, zero, suc, ◌+◌, ◌-◌, ◌*◌, ◌/◌, ◌%◌, Bool, true, false, ◌&&◌, List, [], ◌∷◌, ◌++◌, ltb, length,
  drop, replicate, if◌then◌else◌,
}
use mermai_blockchain.Base.Words.{mul64}
use mermai_blockchain.Base.Key.{Bytes, nat_key, ◌==◌}
use mermai_blockchain.Wire.{write_u64}

-- `std::array<uint8_t, 32> word = {0}`
unfoldable pub zero_word : Bytes
unfolding replicate
zero_word = replicate 32 0

-- The loop of `add`, from the last byte to the first: the sum and the carry out of it.
unfoldable pub add_bytes : Bytes → Bytes → Bytes × ℕ
add_bytes [] bs = ([], 0)
add_bytes (a ∷ as') [] = ([], 0)
add_bytes (a ∷ as') (b ∷ bs) =
    let rest = add_bytes as' bs in let sum = a + b + rest.1 in ((sum % 256) ∷ rest.0, sum / 256)

unfoldable pub add_word : Bytes → Bytes → Bytes
unfolding add_bytes
add_word a b = (add_bytes a b).0

-- The loop of `sub`: the difference and the borrow out of it. `diff` is negative if the byte is
-- smaller than what is taken from it.
unfoldable pub sub_bytes : Bytes → Bytes → Bytes × ℕ
sub_bytes [] bs = ([], 0)
sub_bytes (a ∷ as') [] = ([], 0)
sub_bytes (a ∷ as') (b ∷ bs) =
    let rest = sub_bytes as' bs in
    if ltb a (b + rest.1)
    then ((a + 256 - (b + rest.1)) ∷ rest.0, 1)
    else ((a - (b + rest.1)) ∷ rest.0, 0)

unfoldable pub sub_word : Bytes → Bytes → Bytes
unfolding sub_bytes
sub_word a b = (sub_bytes a b).0

-- The loop that shifts bytes into an integer.
unfoldable pub shift_in : ℕ → Bytes → ℕ
shift_in value [] = value
shift_in value (b ∷ bytes) = shift_in (value * 256 + b) bytes

-- The last 8 bytes, as a `uint64_t`.
unfoldable pub low_u64 : Bytes → ℕ
unfolding shift_in
low_u64 word = shift_in 0 (drop 24 word)

-- A `uint64_t` in the last 8 bytes.
unfoldable pub u64_word : ℕ → Bytes
unfolding replicate
u64_word value = replicate 24 0 ++ write_u64 value

unfoldable pub mul_word : Bytes → Bytes → Bytes
unfolding low_u64 u64_word
mul_word a b = u64_word (mul64 (low_u64 a) (low_u64 b))

-- The loops that test whether all bytes are 0.
unfoldable pub is_zero : Bytes → Bool
is_zero [] = true
is_zero (b ∷ bytes) = b == 0 && is_zero bytes

-- `result[31] = flag`
unfoldable pub bool_word : Bool → Bytes
unfolding replicate
bool_word flag = replicate 31 0 ++ ((if flag then 1 else 0) ∷ [])

-- `word[31]`
unfoldable pub last_byte : Bytes → ℕ
last_byte [] = 0
last_byte (b ∷ []) = b
last_byte (b ∷ c ∷ bytes) = last_byte (c ∷ bytes)
