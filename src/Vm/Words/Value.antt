-- ===== src/Vm/Words/Value.antt =====
-- The numbers that words stand for: `add` and `sub` are addition and subtraction modulo 2^256.
use mermai_blockchain.Base.{
  ℕ, suc, ◌+◌, ◌-◌, ◌*◌, ◌/◌, ◌%◌, ◌^◌, ◌≤◌, ◌<◌, ◌≡◌, refl, sym, ap, Bool-cases, inl, inr, [], ◌∷◌,
  arith, ltb, length, All,
}
use mermai_blockchain.Base.Key.{Bytes}
use mermai_blockchain.Vm.Words.{add_bytes, add_word, sub_bytes, sub_word}

-- The number of a list of bytes, the most significant first.
unfoldable pub value : Bytes → ℕ
value [] = 0
value (b ∷ bytes) = b * 256 ^ length bytes + value bytes

abbrev pub IsByte : ℕ → Type 0
IsByte b = b < 256

-- 32 bytes.
pub record IsWord (w : Bytes) : Type 0 where
  pub size : length w ≡ 32
  pub bytes : All IsByte w

length-add_bytes :
    (as' bs : Bytes) → length as' ≡ length bs → length (add_bytes as' bs).0 ≡ length as'
unfolding add_bytes
length-add_bytes [] bs h = refl
length-add_bytes (a ∷ as') [] h = absurd (omega arith)
length-add_bytes (a ∷ as') (b ∷ bs) h = omega (arith, length-add_bytes as' bs (omega arith))

bytes-add_bytes : (as' bs : Bytes) → All IsByte (add_bytes as' bs).0
unfolding add_bytes
bytes-add_bytes [] bs = tt
bytes-add_bytes (a ∷ as') [] = tt
bytes-add_bytes (a ∷ as') (b ∷ bs) = (omega arith, bytes-add_bytes as' bs)

pow_suc : (n : ℕ) → 256 ^ suc n ≡ 256 * 256 ^ n
pow_suc n = omega arith

-- One place of an addition: the digits, the weights and the carries.
add_place :
    (a b c d e p r s t : ℕ)
    → r + c * p ≡ s + t
    → a + b + c ≡ 256 * e + d
    → d * p + r + e * (256 * p) ≡ (a * p + s) + (b * p + t)
add_place a b c d e p r s t h k = omega (arith, ap (λ (n : ℕ). n * p) k, h)

value-add_bytes :
    (as' bs : Bytes)
    → length as' ≡ length bs
    → value (add_bytes as' bs).0 + (add_bytes as' bs).1 * 256 ^ length as' ≡ value as' + value bs
unfolding add_bytes value
value-add_bytes [] [] h = omega arith
value-add_bytes [] (b ∷ bs) h = absurd (omega arith)
value-add_bytes (a ∷ as') [] h = absurd (omega arith)
value-add_bytes (a ∷ as') (b ∷ bs) h =
    let same : length bs ≡ length as' = omega (arith, h) in
    let rest = add_bytes as' bs in
    let sum = a + b + rest.1 in
    rw (length-add_bytes as' bs (sym same), same, pow_suc)
      (add_place a b rest.1 (sum % 256) (sum / 256) (256 ^ length as') (value rest.0) (value as')
        (value bs) (value-add_bytes as' bs (sym same)) (omega arith))

length-sub_bytes :
    (as' bs : Bytes) → length as' ≡ length bs → length (sub_bytes as' bs).0 ≡ length as'
unfolding sub_bytes
length-sub_bytes [] bs h = refl
length-sub_bytes (a ∷ as') [] h = absurd (omega arith)
length-sub_bytes (a ∷ as') (b ∷ bs) h = ground (arith, length-sub_bytes as' bs (omega arith))

borrow_le_one : (as' bs : Bytes) → (sub_bytes as' bs).1 ≤ 1
unfolding sub_bytes
borrow_le_one [] bs = omega arith
borrow_le_one (a ∷ as') [] = omega arith
borrow_le_one (a ∷ as') (b ∷ bs) = ground arith

bytes-sub_bytes :
    (as' bs : Bytes) → All IsByte as' → All IsByte bs → All IsByte (sub_bytes as' bs).0
unfolding sub_bytes
bytes-sub_bytes [] bs h k = tt
bytes-sub_bytes (a ∷ as') [] h k = tt
bytes-sub_bytes (a ∷ as') (b ∷ bs) h k =
    let rest = bytes-sub_bytes as' bs h.1 k.1 in ground (arith, borrow_le_one as' bs, rest)

-- One place of a subtraction, with the borrow out of it.
sub_place :
    (a b c d e p r s t : ℕ)
    → r + t ≡ s + c * p
    → d + b + c ≡ a + 256 * e
    → (d * p + r) + (b * p + t) ≡ (a * p + s) + e * (256 * p)
sub_place a b c d e p r s t h k = omega (arith, ap (λ (n : ℕ). n * p) k, h)

sub_digit :
    (a b : ℕ) (rest : Bytes × ℕ) (as' bs : Bytes)
    → a < 256
    → b < 256
    → rest ≡ sub_bytes as' bs
    → ((d : ℕ) × (e : ℕ) × (sub_bytes (a ∷ as') (b ∷ bs) ≡ (d ∷ rest.0, e))
        × (d + b + rest.1 ≡ a + 256 * e))
unfolding sub_bytes
sub_digit a b rest as' bs h k same = elim (Bool-cases (ltb a (b + rest.1))) [
  | inl borrow ↦ (a + 256 - (b + rest.1), 1, ground arith, ground (arith, borrow_le_one as' bs))
  | inr enough ↦ (a - (b + rest.1), 0, ground arith, ground (arith, borrow_le_one as' bs))
]

value-sub_bytes :
    (as' bs : Bytes)
    → length as' ≡ length bs
    → All IsByte as'
    → All IsByte bs
    → value (sub_bytes as' bs).0 + value bs ≡ value as' + (sub_bytes as' bs).1 * 256 ^ length as'
unfolding value
value-sub_bytes [] [] h k l = unfold sub_bytes in omega arith
value-sub_bytes [] (b ∷ bs) h k l = absurd (omega arith)
value-sub_bytes (a ∷ as') [] h k l = absurd (omega arith)
value-sub_bytes (a ∷ as') (b ∷ bs) h k l =
    let same : length bs ≡ length as' = omega (arith, h) in
    let rest = sub_bytes as' bs in
    let (d, e, made, digits) = sub_digit a b rest as' bs k.0 l.0 refl in
    rw (made, length-sub_bytes as' bs (sym same), same, pow_suc)
      (sub_place a b rest.1 d e (256 ^ length as') (value rest.0) (value as') (value bs)
        (value-sub_bytes as' bs (sym same) k.1 l.1) digits)

digit_lt : (b p v : ℕ) → b < 256 → v < p → b * p + v < 256 * p
digit_lt b p v h k = grind arith

value-lt : (bytes : Bytes) → All IsByte bytes → value bytes < 256 ^ length bytes
unfolding value
value-lt [] h = omega arith
value-lt (b ∷ bytes) h =
    rw pow_suc (digit_lt b (256 ^ length bytes) (value bytes) h.0 (value-lt bytes h.1))

value-lt_word : (w : Bytes) → IsWord w → value w < 2 ^ 256
value-lt_word w h = rw h.size at (value-lt w h.bytes)

pub add_word-IsWord : (a b : Bytes) → IsWord a → IsWord b → IsWord (add_word a b)
unfolding add_word
add_word-IsWord a b h k = record {
  size = omega (arith, length-add_bytes a b (omega (arith, h.size, k.size)), h.size);
  bytes = bytes-add_bytes a b;
}

pub sub_word-IsWord : (a b : Bytes) → IsWord a → IsWord b → IsWord (sub_word a b)
unfolding sub_word
sub_word-IsWord a b h k = record {
  size = omega (arith, length-sub_bytes a b (omega (arith, h.size, k.size)), h.size);
  bytes = bytes-sub_bytes a b h.bytes k.bytes;
}

-- On words, ADD is addition modulo 2^256, and SUB is subtraction modulo 2^256.
pub add_word_value :
    (a b : Bytes)
    → IsWord a
    → IsWord b
    → (value (add_word a b) ≡ (value a + value b) % 2 ^ 256)
      × (value (sub_word a b) ≡ (value a + 2 ^ 256 - value b) % 2 ^ 256)
      × IsWord (add_word a b)
      × IsWord (sub_word a b)
unfolding add_word sub_word
add_word_value a b h k =
    let same : length a ≡ length b = omega (arith, h.size, k.size) in
    let sum = rw h.size at (value-add_bytes a b same) in
    let difference = rw h.size at (value-sub_bytes a b same h.bytes k.bytes) in
    let small = value-lt_word (add_word a b) (add_word-IsWord a b h k) in
    let low = value-lt_word (sub_word a b) (sub_word-IsWord a b h k) in
    let first = value-lt_word a h in
    let second = value-lt_word b k in
    (
      omega arith,
      omega (arith, borrow_le_one a b),
      add_word-IsWord a b h k,
      sub_word-IsWord a b h k,
    )
