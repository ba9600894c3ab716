-- ===== src/Base/Map.antt =====
-- `std::map`, as an association list in the order of its keys. An insertion is `find`, then a
-- write in place or a new entry at its place in the order, so that the laws need no invariant.
pub mod Unique
use mermai_blockchain.Base.Tests.{if◌then◌else◌, Bool-cases, Option-cases}
use mermai_blockchain.Base.Lists.{length}
use mermai_blockchain.Base.Key.{Key, ◌==◌}
use mermai_blockchain.Base.Set.{NotIn, Distinct}
use Prim.Native.Nat.{ℕ, suc, ◌+◌, ◌≤◌, ◌<◌}
use mathlib.Core.Path.{◌≡◌, refl, sym, subst}
use mathlib.Core.Logic.{◌≢◌}
use mathlib.Core.Logic.{inl, inr}
use mathlib.Core.Bool.{Bool, true, false}
use mathlib.Core.Option.{Option, none, some}
use mathlib.Core.List.{List, [], ◌∷◌}
use native.Mathlib.Omega.{arith}

abbrev pub Map {ℓ κ} : Type ℓ → Type κ → Type (ℓ ⊔ κ)
Map K V = List (K × V)

module _ {ℓ κ} {K : Type ℓ} {V : Type κ} where
  abbrev pub keys : Map K V → List K
  keys [] = []
  keys (e ∷ m) = e.0 ∷ keys m

  abbrev pub values : Map K V → List V
  values [] = []
  values (e ∷ m) = e.1 ∷ values m

  -- The sum of a measure of the values.
  unfoldable pub sum_by : (V → ℕ) → Map K V → ℕ
  sum_by f [] = 0
  sum_by f (e ∷ m) = f e.1 + sum_by f m

module _ {ℓ κ} {K : Type ℓ} {V : Type κ} ⦃key : Key K⦄ where
  unfoldable pub find : K → Map K V → Option V
  find k [] = none
  find k (e ∷ m) = if k == e.0 then some e.1 else find k m

  unfoldable pub contains : K → Map K V → Bool
  contains k [] = false
  contains k (e ∷ m) = if k == e.0 then true else contains k m

  -- What `m[k]` reads: a missing key reads as the default.
  unfoldable pub find_or : V → K → Map K V → V
  find_or d k m = elim (find k m) [ none ↦ d | some v ↦ v ]

  unfoldable pub assign : K → V → Map K V → Map K V
  assign k v [] = []
  assign k v (e ∷ m) = if k == e.0 then (e.0, v) ∷ m else e ∷ assign k v m

  unfoldable pub insert_new : K → V → Map K V → Map K V
  insert_new k v [] = (k, v) ∷ []
  insert_new k v (e ∷ m) = if key.less k e.0 then (k, v) ∷ e ∷ m else e ∷ insert_new k v m

  -- `m[k] = v`
  unfoldable pub insert : K → V → Map K V → Map K V
  unfolding contains assign insert_new
  insert k v m = if contains k m then assign k v m else insert_new k v m

  -- `m.erase(k)`
  unfoldable pub erase : K → Map K V → Map K V
  erase k [] = []
  erase k (e ∷ m) = if k == e.0 then erase k m else e ∷ erase k m

  pub contains-eq-false : (k : K) (m : Map K V) → find k m ≡ none → contains k m ≡ false
  unfolding find contains
  contains-eq-false k [] h = refl
  contains-eq-false k (e ∷ m) h = ground (arith, contains-eq-false k m)

  pub contains-eq-true : (k : K) (v : V) (m : Map K V) → find k m ≡ some v → contains k m ≡ true
  unfolding find contains
  contains-eq-true k v [] h = cc
  contains-eq-true k v (e ∷ m) h = ground (arith, contains-eq-true k v m)

  find-eq-none : (k : K) (m : Map K V) → contains k m ≡ false → find k m ≡ none
  unfolding find contains
  find-eq-none k [] h = refl
  find-eq-none k (e ∷ m) h = ground (arith, find-eq-none k m)

  find-assign :
      (j k : K) (v : V) (m : Map K V)
      → contains k m ≡ true
      → find j (assign k v m) ≡ (if j == k then some v else find j m)
  unfolding find contains assign
  find-assign j k v [] h = cc
  find-assign j k v (e ∷ m) h =
      ground (arith, find-assign j k v m, key.beq_iff j k, key.beq_iff k e.0, key.beq_iff j e.0)

  find-insert_new :
      (j k : K) (v : V) (m : Map K V)
      → contains k m ≡ false
      → find j (insert_new k v m) ≡ (if j == k then some v else find j m)
  unfolding find contains insert_new
  find-insert_new j k v [] h = refl
  find-insert_new j k v (e ∷ m) h =
      ground (arith, find-insert_new j k v m, key.beq_iff j k, key.beq_iff k e.0, key.beq_iff j e.0)

  -- A write is seen at its key, and nowhere else.
  pub find-insert :
      (j k : K) (v : V) (m : Map K V)
      → find j (insert k v m) ≡ (if j == k then some v else find j m)
  unfolding insert
  find-insert j k v m = elim (Bool-cases (contains k m)) [
    | inl old ↦ rw old (find-assign j k v m old)
    | inr new ↦ rw new (find-insert_new j k v m new)
  ]

  pub find-erase :
      (j k : K) (m : Map K V) → find j (erase k m) ≡ (if j == k then none else find j m)
  unfolding find erase
  find-erase j k [] = ground arith
  find-erase j k (e ∷ m) =
      ground (arith, find-erase j k m, key.beq_iff j k, key.beq_iff k e.0, key.beq_iff j e.0)

  sum_by-assign :
      (f : V → ℕ) (k : K) (v old : V) (m : Map K V)
      → find k m ≡ some old
      → sum_by f (assign k v m) + f old ≡ sum_by f m + f v
  unfolding sum_by find assign
  sum_by-assign f k v old [] h = cc
  sum_by-assign f k v old (e ∷ m) h = ground (arith, sum_by-assign f k v old m)

  sum_by-insert_new :
      (f : V → ℕ) (k : K) (v : V) (m : Map K V) → sum_by f (insert_new k v m) ≡ sum_by f m + f v
  unfolding sum_by insert_new
  sum_by-insert_new f k v [] = omega arith
  sum_by-insert_new f k v (e ∷ m) = ground (arith, sum_by-insert_new f k v m)

  -- A write moves the sum from the value that stood there, a default of measure 0 if there was
  -- none, to the new one.
  pub sum_by-insert :
      (f : V → ℕ) (d : V) (k : K) (v : V) (m : Map K V)
      → f d ≡ 0
      → sum_by f (insert k v m) + f (find_or d k m) ≡ sum_by f m + f v
  unfolding insert find_or
  sum_by-insert f d k v m h = elim (Option-cases (find k m)) [
    | inl new ↦
        rw (new, find_or, contains-eq-false k m new) (omega (arith, sum_by-insert_new f k v m))
    | inr (old, e) ↦ rw (e, find_or, contains-eq-true k old m e) (sum_by-assign f k v old m e)
  ]

  -- The entry of a key that is present weighs no more than the whole map.
  pub find_or-le-sum_by :
      (f : V → ℕ) (d : V) (k : K) (m : Map K V) → f d ≡ 0 → f (find_or d k m) ≤ sum_by f m
  unfolding sum_by find_or find
  find_or-le-sum_by f d k [] h = omega arith
  find_or-le-sum_by f d k (e ∷ m) h = ground (arith, find_or-le-sum_by f d k m)

  -- The number of entries, when a key is written.
  length-assign : (k : K) (v : V) (m : Map K V) → length (assign k v m) ≡ length m
  unfolding assign
  length-assign k v [] = refl
  length-assign k v (e ∷ m) = ground (arith, length-assign k v m)

  length-insert_new : (k : K) (v : V) (m : Map K V) → length (insert_new k v m) ≡ suc (length m)
  unfolding insert_new
  length-insert_new k v [] = refl
  length-insert_new k v (e ∷ m) = ground (arith, length-insert_new k v m)

  pub length-insert :
      (k : K) (v : V) (m : Map K V)
      → length (insert k v m) ≡ (if contains k m then length m else suc (length m))
  unfolding insert
  length-insert k v m = ground (arith, length-assign k v m, length-insert_new k v m)

  pub length-erase-le : (k : K) (m : Map K V) → length (erase k m) ≤ length m
  unfolding erase
  length-erase-le k [] = omega arith
  length-erase-le k (e ∷ m) = ground (arith, length-erase-le k m)

  -- A key that is present leaves room when it is erased.
  pub length-erase-lt : (k : K) (m : Map K V) → contains k m ≡ true → length (erase k m) < length m
  unfolding erase contains
  length-erase-lt k [] h = cc
  length-erase-lt k (e ∷ m) h = ground (arith, length-erase-lt k m, length-erase-le k m)

  -- What `m[k]` does to the map when it is read: a missing key is entered with the default.
  unfoldable pub touch : V → K → Map K V → Map K V
  unfolding contains insert_new
  touch d k m = if contains k m then m else insert_new k d m

  pub find_or-touch : (d : V) (j k : K) (m : Map K V) → find_or d j (touch d k m) ≡ find_or d j m
  unfolding touch find_or
  find_or-touch d j k m = ground (arith, find-insert_new j k d m, find-eq-none k m, key.beq_iff j k)

  pub sum_by-touch :
      (f : V → ℕ) (d : V) (k : K) (m : Map K V) → f d ≡ 0 → sum_by f (touch d k m) ≡ sum_by f m
  unfolding touch
  sum_by-touch f d k m h = ground (arith, sum_by-insert_new f k d m)

  pub find_or-insert :
      (d : V) (j k : K) (v : V) (m : Map K V)
      → find_or d j (insert k v m) ≡ (if j == k then v else find_or d j m)
  unfolding find_or
  find_or-insert d j k v m = ground (arith, find-insert j k v m)
