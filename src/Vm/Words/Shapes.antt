-- ===== src/Vm/Words/Shapes.antt =====
-- The words that the machine makes have 32 bytes.
use mermai_blockchain.Base.{
  ℕ, zero, suc, ◌+◌, ◌-◌, ◌<◌, ◌≡◌, Bool, true, false, [], ◌∷◌, ◌++◌, arith, length, take, drop,
  replicate, length-append, length-replicate, All,
}
use mermai_blockchain.Base.Key.{Bytes}
use mermai_blockchain.Wire.{write_value, write_u64}
use mermai_blockchain.Wire.Values.{length-write_value}
use mermai_blockchain.Vm.Words.{zero_word, mul_word, u64_word, bool_word, last_byte}
use mermai_blockchain.Vm.Words.Value.{IsByte, IsWord}

pub All-append : (xs ys : Bytes) → All IsByte xs → All IsByte ys → All IsByte (xs ++ ys)
All-append [] ys h k = k
All-append (x ∷ xs) ys h k = (h.0, All-append xs ys h.1 k)

pub All-replicate_zero : (n : ℕ) → All IsByte (replicate n 0)
unfolding replicate
All-replicate_zero zero = tt
All-replicate_zero (suc n) = (omega arith, All-replicate_zero n)

pub All-take : (n : ℕ) (xs : Bytes) → All IsByte xs → All IsByte (take n xs)
All-take zero xs h = tt
All-take (suc n) [] h = tt
All-take (suc n) (x ∷ xs) h = (h.0, All-take n xs h.1)

pub All-drop : (n : ℕ) (xs : Bytes) → All IsByte xs → All IsByte (drop n xs)
All-drop zero xs h = h
All-drop (suc n) [] h = tt
All-drop (suc n) (x ∷ xs) h = All-drop n xs h.1

pub length-take : (n : ℕ) (xs : Bytes) → length (take n xs) + (length xs - n) ≡ length xs
length-take zero xs = omega arith
length-take (suc n) [] = omega arith
length-take (suc n) (x ∷ xs) = omega (arith, length-take n xs)

All-write_value : (n v : ℕ) → All IsByte (write_value n v)
unfolding write_value
All-write_value zero v = tt
All-write_value (suc n) v = (omega arith, All-write_value n v)

pub append-IsWord :
    (xs ys : Bytes) → length xs + length ys ≡ 32 → All IsByte xs → All IsByte ys → IsWord (xs ++ ys)
append-IsWord xs ys e h k = record {
  size = omega (arith, length-append xs ys, e);
  bytes = All-append xs ys h k;
}

pub padded-IsWord :
    (n : ℕ) (ys : Bytes) → n + length ys ≡ 32 → All IsByte ys → IsWord (replicate n 0 ++ ys)
padded-IsWord n ys e k =
    append-IsWord (replicate n 0) ys (omega (arith, length-replicate {A = ℕ} n 0, e))
      (All-replicate_zero n) k

pub zero_word-IsWord : IsWord zero_word
unfolding zero_word
zero_word-IsWord = record { size = length-replicate {A = ℕ} 32 0; bytes = All-replicate_zero 32 }

pub u64_word-IsWord : (v : ℕ) → IsWord (u64_word v)
unfolding u64_word
u64_word-IsWord v =
    padded-IsWord 24 (write_u64 v) (omega (arith, length-write_value 8 v)) (All-write_value 8 v)

pub bool_word-IsWord : (flag : Bool) → IsWord (bool_word flag)
unfolding bool_word
bool_word-IsWord true = padded-IsWord 31 (1 ∷ []) (omega arith) (omega arith)
bool_word-IsWord false = padded-IsWord 31 (0 ∷ []) (omega arith) (omega arith)

pub mul_word-IsWord : (a b : Bytes) → IsWord (mul_word a b)
unfolding mul_word
mul_word-IsWord a b = u64_word-IsWord _

pub last_byte-lt : (w : Bytes) → All IsByte w → last_byte w < 256
unfolding last_byte
last_byte-lt [] h = omega arith
last_byte-lt (b ∷ []) h = h.0
last_byte-lt (b ∷ c ∷ w) h = last_byte-lt (c ∷ w) h.1
