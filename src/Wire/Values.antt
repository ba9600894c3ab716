-- ===== src/Wire/Values.antt =====
-- What is written is read back, and the reader stops where the writer stopped.
use mermai_blockchain.Base.{
  ℕ, zero, suc, ◌%◌, ◌≤◌, ◌<◌, ◌≡◌, refl, ap, ◌||◌, ltb, List, [], ◌∷◌, ◌++◌, arith, length, All,
  take, drop, length-append, take-append_self, drop-append_self, append_assoc,
}
use mermai_blockchain.Base.Words.{u32_mod, IsU32, IsU64}
use mermai_blockchain.Base.Key.{Bytes}
use mermai_blockchain.Wire.{
  Result, ok, err, ◌>>=◌, Reader, write_value, read_value, write_u32, write_u64, read_u32, read_u64,
  write_bytes, read_bytes, write_string, read_string, max_serialized_bytes, max_serialized_string,
  write_items, read_items, WireError, throw_if, ◌>>◌, invalid_byte_payload_size,
  invalid_string_payload_size,
}
use native.Mathlib.Nat.{mod-eq_of_lt}

pub length-write_value : (n v : ℕ) → length (write_value n v) ≡ n
unfolding write_value
length-write_value zero v = refl
length-write_value (suc n) v = ap suc (length-write_value n v)

pub read_u32-write :
    (v : ℕ) (rest : Bytes) → IsU32 v → read_u32 (write_u32 v ++ rest) ≡ ok (v, rest)
unfolding read_value write_value
read_u32-write v rest h = ground arith

pub read_u64-write :
    (v : ℕ) (rest : Bytes) → IsU64 v → read_u64 (write_u64 v ++ rest) ≡ ok (v, rest)
unfolding read_value write_value
read_u64-write v rest h = ground arith

abbrev sized : ℕ → WireError → Reader Bytes
sized limit e input = do
  (size, input') ← read_u32 input
  throw_if (ltb limit size || ltb (length input') size) e
  ok (take size input', drop size input')

pub small_size : (n : ℕ) → n ≤ max_serialized_string → n % u32_mod ≡ n
small_size n h = omega arith

-- The length prefix and the content of a string or a byte vector.
sized_lem :
    (limit : ℕ) (e : WireError) (bytes rest : Bytes)
    → limit ≤ max_serialized_string
    → length bytes ≤ limit
    → sized limit e ((write_u32 (length bytes % u32_mod) ++ bytes) ++ rest) ≡ ok (bytes, rest)
sized_lem limit e bytes rest cap h =
    rw
      (
        append_assoc (write_u32 (length bytes % u32_mod)) bytes rest,
        small_size (length bytes) (omega arith),
        read_u32-write (length bytes) (bytes ++ rest) (omega arith),
        take-append_self bytes rest,
        drop-append_self bytes rest,
      )
      (ground (arith, length-append bytes rest))

pub read_bytes-write :
    (bytes rest : Bytes)
    → length bytes ≤ max_serialized_bytes
    → read_bytes (write_bytes bytes ++ rest) ≡ ok (bytes, rest)
unfolding read_bytes write_bytes
read_bytes-write bytes rest h =
    sized_lem max_serialized_bytes invalid_byte_payload_size bytes rest (omega arith) h

pub read_string-write :
    (text rest : Bytes)
    → length text ≤ max_serialized_string
    → read_string (write_string text ++ rest) ≡ ok (text, rest)
unfolding read_string write_string
read_string-write text rest h =
    sized_lem max_serialized_string invalid_string_payload_size text rest (omega arith) h

-- A string that is longer than the reader allows is refused, whatever follows it.
pub read_string-oversize :
    (text rest : Bytes)
    → max_serialized_string < length text
    → IsU32 (length text)
    → read_string (write_string text ++ rest) ≡ err invalid_string_payload_size
unfolding read_string write_string
read_string-oversize text rest h small =
    rw
      (
        append_assoc (write_u32 (length text % u32_mod)) text rest,
        mod-eq_of_lt small,
        read_u32-write (length text) (text ++ rest) small,
      )
      (ground arith)

module _ {ℓ κ} {A : Type ℓ} (Encodable : A → Type κ) (write : A → Bytes) (read : Reader A)
    (read-write : (a : A) (rest : Bytes)
      → Encodable a
      → read (write a ++ rest) ≡ ok (a, rest)) where
  pub read_items-write :
      (items : List A) (rest : Bytes)
      → All Encodable items
      → read_items (length items) read (write_items write items ++ rest) ≡ ok (items, rest)
  unfolding read_items write_items
  read_items-write [] rest h = refl
  read_items-write (a ∷ items) rest h = rw (
    append_assoc (write a) (write_items write items) rest,
    read-write a (write_items write items ++ rest) h.0,
    read_items-write items rest h.1,
  )

-- A count within the reader's bound passes its guard.
pub count_passes :
    {A : Type 0} (bound n : ℕ) (e : WireError) (k : Result A)
    → n ≤ bound
    → (throw_if (ltb bound n) e >> k) ≡ k
count_passes bound n e k h = ground arith

-- Reading a sequence stops with the error of the first element that cannot be read.
module _ {ℓ κ} {A : Type ℓ} (Encodable : A → Type κ) (write : A → Bytes) (read : Reader A)
    (read-write : (a : A) (rest : Bytes) → Encodable a → read (write a ++ rest) ≡ ok (a, rest))
    (bad : A) (e : WireError) (read-bad : (rest : Bytes) → read (write bad ++ rest) ≡ err e) where
  pub read_items-bad :
      (before after : List A) (rest : Bytes)
      → All Encodable before
      → read_items
          (length (before ++ (bad ∷ after)))
          read
          (write_items write (before ++ (bad ∷ after)) ++ rest)
        ≡ err e
  unfolding read_items write_items
  read_items-bad [] after rest h = rw (
    append_assoc (write bad) (write_items write after) rest,
    read-bad (write_items write after ++ rest),
  )
  read_items-bad (a ∷ before) after rest h = rw (
    append_assoc (write a) (write_items write (before ++ (bad ∷ after))) rest,
    read-write a (write_items write (before ++ (bad ∷ after)) ++ rest) h.0,
    read_items-bad before after rest h.1,
  )
