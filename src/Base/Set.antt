-- ===== src/Base/Set.antt =====
-- `std::set`: the list of its elements. No code of the program looks at the order of a set.
use mermai_blockchain.Base.Tests.{if◌then◌else◌}
use mermai_blockchain.Base.Lists.{All}
use mermai_blockchain.Base.Key.{Key, ◌==◌}
use mathlib.Core.Path.{◌≡◌, refl}
use mathlib.Core.Logic.{◌≢◌}
use mathlib.Core.Bool.{Bool, true, false}
use mathlib.Core.List.{List, [], ◌∷◌}
use native.Mathlib.Omega.{arith}

module _ {ℓ} {A : Type ℓ} where
  abbrev pub NotIn : A → List A → Type ℓ
  NotIn x xs = All (λ y. x ≢ y) xs

  -- No element stands twice.
  abbrev pub Distinct : List A → Type ℓ
  Distinct [] = Unit {ℓ}
  Distinct (x ∷ xs) = NotIn x xs × Distinct xs

module _ {ℓ} {A : Type ℓ} ⦃key : Key A⦄ where
  unfoldable pub member : A → List A → Bool
  member x [] = false
  member x (y ∷ ys) = if x == y then true else member x ys

  -- `set.insert`
  unfoldable pub add : A → List A → List A
  unfolding member
  add x s = if member x s then s else x ∷ s

  -- `set.erase`
  unfoldable pub remove : A → List A → List A
  remove x [] = []
  remove x (y ∷ ys) = if x == y then remove x ys else y ∷ remove x ys

  pub member-eq-false : (x : A) (s : List A) → member x s ≡ false → NotIn x s
  unfolding member
  member-eq-false x [] h = tt
  member-eq-false x (y ∷ ys) h = ground (arith, key.beq_iff x y, member-eq-false x ys)

  pub NotIn-member : (x : A) (s : List A) → NotIn x s → member x s ≡ false
  unfolding member
  NotIn-member x [] h = refl
  NotIn-member x (y ∷ ys) h = ground (arith, key.beq_iff x y, NotIn-member x ys h.1)

  pub member-add :
      (x y : A) (s : List A) → member x (add y s) ≡ (if x == y then true else member x s)
  unfolding member add
  member-add x y s = ground (arith, key.beq_iff x y)

  pub member-remove :
      (x y : A) (s : List A) → member x (remove y s) ≡ (if x == y then false else member x s)
  unfolding member remove
  member-remove x y [] = ground arith
  member-remove x y (z ∷ s) =
      ground (arith, key.beq_iff x y, key.beq_iff y z, key.beq_iff x z, member-remove x y s)
