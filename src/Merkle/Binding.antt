-- ===== src/Merkle/Binding.antt =====
-- Whether a root binds the leaf at a position: `verify_proof` of src/core/mermai_merkle.cpp, and the
-- bytes that it hashes.
use mermai_blockchain.Base.{
  ℕ, ◌+◌, ◌*◌, ◌/◌, ◌%◌, ◌<◌, ◌≡◌, ◌≢◌, refl, ap, sym, ◌∙◌, ◌⊎◌, inl, inr, Bool, true, List, [],
  ◌∷◌, ◌++◌, arith, length, length-append, All, if◌then◌else◌, Bool-cases,
}
use mermai_blockchain.Base.Key.{
  Bytes, bytes_beq, bytes_beq_iff, bytes_beq_sound, bytes_key, nat_key,
}
use mermai_blockchain.Crypto.{Crypto, hex_encode, hex_digit}
use mermai_blockchain.Merkle.{
  ProofStep, MerkleProof, hex_value, hex_byte, hex_to_bytes, hash_pair, apply_steps, verify_proof,
}

-- The turns that a proof takes.
abbrev pub turns : List ProofStep → List Bool
turns [] = []
turns (s ∷ steps) = s.is_right ∷ turns steps

-- The step names a hash of 32 bytes.
abbrev pub IsDigest : ProofStep → Type 0
IsDigest s = length (hex_to_bytes s.hash) ≡ 32

-- The text is what `hash_to_hex` makes of some bytes.
abbrev pub IsHex : Bytes → Type 0
IsHex hex = hex_encode (hex_to_bytes hex) ≡ hex

-- SHA256 gives bytes.
abbrev pub GivesBytes : Crypto → Type 0
GivesBytes crypto = (input : Bytes) → All (λ b. b < 256) (crypto.sha256 input)

-- The bytes that a step hashes.
unfoldable pub step_input : Bytes → ProofStep → Bytes
step_input current s =
    if s.is_right
    then hex_to_bytes current ++ hex_to_bytes s.hash
    else hex_to_bytes s.hash ++ hex_to_bytes current

-- The bytes that `verify_proof` hashes on its way from a leaf to the root, in their order.
unfoldable pub inputs : Crypto → Bytes → List ProofStep → List Bytes
unfolding step_input
inputs crypto current [] = []
inputs crypto current (s ∷ steps) =
    step_input current s ∷ inputs crypto (hex_encode (crypto.sha256 (step_input current s))) steps

-- At some place the two lists have different bytes with the same hash.
unfoldable pub Collides : Crypto → List Bytes → List Bytes → Type 0
Collides crypto [] more = ⊥
Collides crypto (a ∷ rest) [] = ⊥
Collides crypto (a ∷ rest) (b ∷ more) =
    ((a ≢ b) × (crypto.sha256 a ≡ crypto.sha256 b)) ⊎ Collides crypto rest more

hex_value-hex_digit : (d : ℕ) → d < 16 → hex_value (hex_digit d) ≡ d
unfolding hex_value hex_digit
hex_value-hex_digit d h = ground arith

hex_byte_digits :
    (c d : ℕ) → hex_value c < 16 → hex_value d < 16 → hex_byte c d ≡ hex_value c * 16 + hex_value d
unfolding hex_byte
hex_byte_digits c d high low = ground arith

hex_byte-hex_digit : (b : ℕ) → b < 256 → hex_byte (hex_digit (b / 16)) (hex_digit (b % 16)) ≡ b
hex_byte-hex_digit b h =
    let high = hex_value-hex_digit (b / 16) (omega (arith, h)) in
    let low = hex_value-hex_digit (b % 16) (omega arith) in
    hex_byte_digits (hex_digit (b / 16)) (hex_digit (b % 16)) (omega (arith, high, h))
      (omega (arith, low))
    ∙ rw (high, low) (omega arith)

hex_to_bytes-hex_encode :
    (bytes : Bytes) → All (λ b. b < 256) bytes → hex_to_bytes (hex_encode bytes) ≡ bytes
unfolding hex_to_bytes hex_encode
hex_to_bytes-hex_encode [] h = refl
hex_to_bytes-hex_encode (b ∷ bytes) h =
    rw (hex_byte-hex_digit b h.0, hex_to_bytes-hex_encode bytes h.1) refl

tails : (a b : ℕ) (rest more : Bytes) → a ∷ rest ≡ b ∷ more → (a ≡ b) × (rest ≡ more)
tails a b rest more e = (cc, cc)

-- Two texts that are equal are equal in their parts, if the first parts have the same length.
split_same : (a b c d : Bytes) → length a ≡ length b → a ++ c ≡ b ++ d → (a ≡ b) × (c ≡ d)
split_same [] [] c d l e = (refl, e)
split_same [] (y ∷ b) c d l e = absurd (omega (arith, l))
split_same (x ∷ a) [] c d l e = absurd (omega (arith, l))
split_same (x ∷ a) (y ∷ b) c d l e =
    let (head, tail) = tails x y (a ++ c) (b ++ d) e in
    let (front, back) = split_same a b c d (omega (arith, l)) tail in (rw (head, front) refl, back)

IsHex-eq : (x y : Bytes) → IsHex x → IsHex y → hex_to_bytes x ≡ hex_to_bytes y → x ≡ y
IsHex-eq x y h k e = sym h ∙ ap hex_encode e ∙ k

step_input-binding :
    (x y : Bytes) (s k : ProofStep)
    → s.is_right ≡ k.is_right
    → IsDigest s
    → IsDigest k
    → step_input x s ≡ step_input y k
    → hex_to_bytes x ≡ hex_to_bytes y
unfolding step_input
step_input-binding x y s k t ds dk e =
    let a = hex_to_bytes x in
    let b = hex_to_bytes y in
    let c = hex_to_bytes s.hash in
    let d = hex_to_bytes k.hash in
    elim (Bool-cases s.is_right) [
      | inl right ↦
          let whole : a ++ c ≡ b ++ d = ground (arith, right, t, e) in
          let sizes = ap (λ (text : Bytes). length text) whole in
          (split_same a b c d (omega (arith, sizes, length-append a c, length-append b d, ds, dk))
            whole).0
      | inr left ↦
          let whole : c ++ a ≡ d ++ b = ground (arith, left, t, e) in
          (split_same c d a b (omega (arith, ds, dk)) whole).1
    ]

-- One round of the loop of `verify_proof`.
hash_pair-step_input :
    (crypto : Crypto) (x : Bytes) (s : ProofStep)
    → (if s.is_right then hash_pair crypto x s.hash else hash_pair crypto s.hash x)
      ≡ hex_encode (crypto.sha256 (step_input x s))
unfolding hash_pair step_input
hash_pair-step_input crypto x s = elim (Bool-cases s.is_right) [
  | inl right ↦ rw (right, step_input) refl
  | inr left ↦ rw (left, step_input) refl
]

module _ (crypto : Crypto) (bytes : GivesBytes crypto) where
  hash_text : Bytes → Bytes
  hash_text input = hex_encode (crypto.sha256 input)

  hash_text-IsHex : (input : Bytes) → IsHex (hash_text input)
  unfolding hash_text
  hash_text-IsHex input =
      ap hex_encode (hex_to_bytes-hex_encode (crypto.sha256 input) (bytes input))

  hash_text-eq : (a b : Bytes) → hash_text a ≡ hash_text b → crypto.sha256 a ≡ crypto.sha256 b
  unfolding hash_text
  hash_text-eq a b e =
      sym (hex_to_bytes-hex_encode (crypto.sha256 a) (bytes a))
      ∙ ap hex_to_bytes e
      ∙ hex_to_bytes-hex_encode (crypto.sha256 b) (bytes b)

  apply_steps-step :
      (x : Bytes) (s : ProofStep) (steps : List ProofStep)
      → apply_steps (hash_pair crypto) x (s ∷ steps)
        ≡ apply_steps (hash_pair crypto) (hash_text (step_input x s)) steps
  unfolding apply_steps hash_text
  apply_steps-step x s steps =
      ap (λ current. apply_steps (hash_pair crypto) current steps) (hash_pair-step_input crypto x s)

  apply_steps-binding :
      (x y : Bytes) (p q : List ProofStep)
      → turns p ≡ turns q
      → All IsDigest p
      → All IsDigest q
      → IsHex x
      → IsHex y
      → apply_steps (hash_pair crypto) x p ≡ apply_steps (hash_pair crypto) y q
      → (x ≡ y) ⊎ Collides crypto (inputs crypto x p) (inputs crypto y q)
  unfolding apply_steps inputs Collides hash_text
  apply_steps-binding x y [] [] t dp dq hx hy e = inl e
  apply_steps-binding x y [] (k ∷ q) t dp dq hx hy e = cc
  apply_steps-binding x y (s ∷ p) [] t dp dq hx hy e = cc
  apply_steps-binding x y (s ∷ p) (k ∷ q) t dp dq hx hy e =
      let a = step_input x s in
      let b = step_input y k in
      let later = sym (apply_steps-step x s p) ∙ (e ∙ apply_steps-step y k q) in
      elim (apply_steps-binding (hash_text a) (hash_text b) p q (cc) dp.1 dq.1 (hash_text-IsHex a)
        (hash_text-IsHex b) later) [
          | inr collides ↦ inr (inr collides)
          | inl same ↦ (elim (Bool-cases (bytes_beq a b)) [
            | inr differ ↦
                inr (inl (ground (arith, bytes_beq_iff a b, differ), hash_text-eq a b same))
            | inl equal ↦ inl (
                IsHex-eq x y hx hy
                  (step_input-binding x y s k (cc) dp.0 dq.0 (bytes_beq_sound a b equal)))
          ])
        ]

-- Let two leaves be hexadecimal texts, and the hashes in two proofs be of 32 bytes, which the code
-- does not check. If both proofs take the same turns and are accepted against one root, the leaves
-- are the same, or at one place the two runs of `verify_proof` hash different bytes to one SHA256.
pub verify_proof-binding :
    (crypto : Crypto) (root x y : Bytes) (p q : MerkleProof)
    → GivesBytes crypto
    → turns p.steps ≡ turns q.steps
    → All IsDigest p.steps
    → All IsDigest q.steps
    → IsHex x
    → IsHex y
    → verify_proof crypto root x p ≡ true
    → verify_proof crypto root y q ≡ true
    → (x ≡ y) ⊎ Collides crypto (inputs crypto x p.steps) (inputs crypto y q.steps)
unfolding verify_proof
verify_proof-binding crypto root x y p q bytes t dp dq hx hy vx vy =
    apply_steps-binding crypto bytes x y p.steps q.steps t dp dq hx hy
      (bytes_beq_sound _ root vx ∙ sym (bytes_beq_sound _ root vy))
