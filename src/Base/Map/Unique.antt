-- ===== src/Base/Map/Unique.antt =====
-- Maps with one entry for each key.
use mermai_blockchain.Base.Tests.{Bool-cases}
use mermai_blockchain.Base.Key.{Key, ◌==◌}
use mermai_blockchain.Base.Set.{NotIn, Distinct}
use Prim.Native.Nat.{ℕ, ◌+◌}
use mathlib.Core.Path.{◌≡◌, refl, sym, subst}
use mathlib.Core.Logic.{◌≢◌}
use mathlib.Core.Logic.{inl, inr}
use mathlib.Core.Bool.{false}
use mathlib.Core.Option.{none, some}
use mathlib.Core.List.{[], ◌∷◌}
use native.Mathlib.Omega.{arith}
use mermai_blockchain.Base.Map.{
  Map, keys, sum_by, find, contains, assign, insert_new, insert, erase, contains-eq-false,
  find-eq-none, sum_by-insert_new,
}

module _ {ℓ κ} {K : Type ℓ} {V : Type κ} ⦃key : Key K⦄ where
  -- No key stands twice.
  abbrev pub IsUnique : Map K V → Type ℓ
  IsUnique m = Distinct (keys m)

  NotIn-find : (k : K) (m : Map K V) → find k m ≡ none → NotIn k (keys m)
  unfolding find
  NotIn-find k [] h = tt
  NotIn-find k (e ∷ m) h = ground (arith, key.beq_iff k e.0, NotIn-find k m)

  erase-NotIn : (k : K) (m : Map K V) → NotIn k (keys m) → erase k m ≡ m
  unfolding erase
  erase-NotIn k [] h = refl
  erase-NotIn k (e ∷ m) h = ground (arith, key.beq_iff k e.0, erase-NotIn k m h.1)

  -- Taking an entry out lowers the sum by its measure.
  pub sum_by-erase :
      (f : V → ℕ) (k : K) (v : V) (m : Map K V)
      → IsUnique m
      → find k m ≡ some v
      → sum_by f (erase k m) + f v ≡ sum_by f m
  unfolding sum_by find erase
  sum_by-erase f k v [] u h = cc
  sum_by-erase f k v (e ∷ m) u h = elim (Bool-cases (k == e.0)) [
    | inl same ↦
        rw
          (
            same,
            erase-NotIn k m (subst (λ j. NotIn j (keys m)) (sym ((key.beq_iff k e.0).0 same)) u.0),
          )
          (ground arith)
    | inr other ↦ rw other (ground (arith, sum_by-erase f k v m u.1))
  ]

  pub sum_by-insert_absent :
      (f : V → ℕ) (k : K) (v : V) (m : Map K V)
      → find k m ≡ none
      → sum_by f (insert k v m) ≡ sum_by f m + f v
  unfolding insert
  sum_by-insert_absent f k v m h = rw (contains-eq-false k m h) (sum_by-insert_new f k v m)

  pub find-eq-none_of : (k : K) (m : Map K V) → contains k m ≡ false → find k m ≡ none
  find-eq-none_of k m h = find-eq-none k m h

  NotIn-insert_new :
      (j k : K) (v : V) (m : Map K V) → j ≢ k → NotIn j (keys m) → NotIn j (keys (insert_new k v m))
  unfolding insert_new
  NotIn-insert_new j k v [] ne n = (ne, tt)
  NotIn-insert_new j k v (e ∷ m) ne n = ground (arith, NotIn-insert_new j k v m ne n.1)

  IsUnique-insert_new :
      (k : K) (v : V) (m : Map K V) → NotIn k (keys m) → IsUnique m → IsUnique (insert_new k v m)
  unfolding insert_new
  IsUnique-insert_new k v [] n u = (tt, tt)
  IsUnique-insert_new k v (e ∷ m) n u = ground (
    arith,
    IsUnique-insert_new k v m n.1 u.1,
    NotIn-insert_new e.0 k v m (λ same. n.0 (sym same)) u.0,
  )

  keys-assign : (k : K) (v : V) (m : Map K V) → keys (assign k v m) ≡ keys m
  unfolding assign
  keys-assign k v [] = refl
  keys-assign k v (e ∷ m) = ground (arith, keys-assign k v m)

  pub IsUnique-insert : (k : K) (v : V) (m : Map K V) → IsUnique m → IsUnique (insert k v m)
  unfolding insert
  IsUnique-insert k v m u = elim (Bool-cases (contains k m)) [
    | inl old ↦ rw (old, keys-assign k v m) u
    | inr new ↦ rw new (IsUnique-insert_new k v m (NotIn-find k m (find-eq-none k m new)) u)
  ]

  NotIn-erase : (j k : K) (m : Map K V) → NotIn j (keys m) → NotIn j (keys (erase k m))
  unfolding erase
  NotIn-erase j k [] n = tt
  NotIn-erase j k (e ∷ m) n = ground (arith, NotIn-erase j k m n.1)

  pub IsUnique-erase : (k : K) (m : Map K V) → IsUnique m → IsUnique (erase k m)
  unfolding erase
  IsUnique-erase k [] u = tt
  IsUnique-erase k (e ∷ m) u = ground (arith, IsUnique-erase k m u.1, NotIn-erase e.0 k m u.0)

  pub find-NotIn : (k : K) (m : Map K V) → NotIn k (keys m) → find k m ≡ none
  unfolding find
  find-NotIn k [] h = refl
  find-NotIn k (e ∷ m) h = ground (arith, key.beq_iff k e.0, find-NotIn k m h.1)
