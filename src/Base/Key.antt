-- ===== src/Base/Key.antt =====
-- Keys of a `std::map` or `std::set`: equality, and the order by which the container is sorted.
-- A `std::string` and a byte vector are both lists of byte values.
use mermai_blockchain.Base.Tests.{ltb, nat_beq, nat_beq_iff, if◌then◌else◌}
use Prim.Native.Nat.{ℕ}
use mathlib.Core.Path.{◌≡◌, refl}
use mathlib.Core.Logic.{◌↔◌}
use mathlib.Core.Bool.{Bool, true, false, ◌&&◌, ◌||◌}
use mathlib.Core.List.{List, [], ◌∷◌}
use native.Mathlib.Omega.{arith}

abbrev pub Bytes : Type 0
Bytes = List ℕ

pub record Key {ℓ} (A : Type ℓ) : Type ℓ where
  pub beq : A → A → Bool
  pub less : A → A → Bool
  pub beq_iff : (a b : A) → (beq a b ≡ true) ↔ (a ≡ b)

infix 50 ◌==◌ ◌!=◌
abbrev pub ◌==◌ {ℓ} : {A : Type ℓ} ⦃key : Key A⦄ → A → A → Bool
◌==◌ ⦃key⦄ = key.beq

abbrev pub ◌!=◌ {ℓ} : {A : Type ℓ} ⦃key : Key A⦄ → A → A → Bool
a != b = if a == b then false else true

instance abbrev pub nat_key : Key ℕ
nat_key = record { beq = nat_beq; less = ltb; beq_iff = nat_beq_iff }

unfoldable pub bytes_beq : Bytes → Bytes → Bool
bytes_beq [] [] = true
bytes_beq [] (b ∷ bs) = false
bytes_beq (a ∷ as') [] = false
bytes_beq (a ∷ as') (b ∷ bs) = nat_beq a b && bytes_beq as' bs

-- `std::string::operator<`: byte by byte, a prefix first.
unfoldable pub bytes_less : Bytes → Bytes → Bool
bytes_less as' [] = false
bytes_less [] (b ∷ bs) = true
bytes_less (a ∷ as') (b ∷ bs) = if ltb a b then true else nat_beq a b && bytes_less as' bs

pub bytes_beq_refl : (a : Bytes) → bytes_beq a a ≡ true
unfolding bytes_beq
bytes_beq_refl [] = refl
bytes_beq_refl (a ∷ as') = ground (arith, bytes_beq_refl as')

pub bytes_beq_sound : (a b : Bytes) → bytes_beq a b ≡ true → a ≡ b
unfolding bytes_beq
bytes_beq_sound [] [] h = refl
bytes_beq_sound [] (b ∷ bs) h = cc
bytes_beq_sound (a ∷ as') [] h = cc
bytes_beq_sound (a ∷ as') (b ∷ bs) h = ground (arith, bytes_beq_sound as' bs)

pub bytes_beq_iff : (a b : Bytes) → (bytes_beq a b ≡ true) ↔ (a ≡ b)
bytes_beq_iff a b = (bytes_beq_sound a b, λ e. rw e (bytes_beq_refl b))

instance abbrev pub bytes_key : Key Bytes
bytes_key = record { beq = bytes_beq; less = bytes_less; beq_iff = bytes_beq_iff }

-- `std::pair`
module _ {ℓ κ} {A : Type ℓ} {B : Type κ} ⦃a_key : Key A⦄ ⦃b_key : Key B⦄ where
  abbrev pub pair_beq : A × B → A × B → Bool
  pair_beq p q = a_key.beq p.0 q.0 && b_key.beq p.1 q.1

  abbrev pub pair_less : A × B → A × B → Bool
  pair_less p q = a_key.less p.0 q.0 || (a_key.beq p.0 q.0 && b_key.less p.1 q.1)

  pub pair_beq_iff : (p q : A × B) → (pair_beq p q ≡ true) ↔ (p ≡ q)
  pair_beq_iff p q = ground (arith, a_key.beq_iff p.0 q.0, b_key.beq_iff p.1 q.1)

  instance abbrev pub pair_key : Key (A × B)
  pair_key = record { beq = pair_beq; less = pair_less; beq_iff = pair_beq_iff }

module _ {ℓ} {A : Type ℓ} ⦃key : Key A⦄ where
  pub ==_refl : (a : A) → (a == a) ≡ true
  ==_refl a = (key.beq_iff a a).1 refl

  pub ==_sound : (a b : A) → (a == b) ≡ true → a ≡ b
  ==_sound a b h = (key.beq_iff a b).0 h
