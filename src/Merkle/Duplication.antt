-- ===== src/Merkle/Duplication.antt =====
-- A tree of an odd number of leaves has the root of the tree with its last leaf written twice.
use mermai_blockchain.Base.{
  ℕ, zero, suc, ◌+◌, ◌%◌, ◌≤◌, ◌<◌, ◌≡◌, refl, ap, true, List, [], ◌∷◌, ◌++◌, arith, ltb, length,
  get_or, Bool-cases, if◌then◌else◌, ◌≢◌, inl, inr, length-append,
}
use mermai_blockchain.Base.Key.{Bytes}
use mermai_blockchain.Crypto.{Crypto}
use mermai_blockchain.Merkle.{hash_pair, next_level, grow, build, get_root}
use mermai_blockchain.Merkle.Completeness.{length-next_level, grow-cons}

module _ (combine : Bytes → Bytes → Bytes) where
  next_level-duplicate :
      (pairs : List Bytes) (x : Bytes)
      → length pairs % 2 ≡ 0
      → next_level combine (pairs ++ (x ∷ [])) ≡ next_level combine (pairs ++ (x ∷ x ∷ []))
  unfolding next_level
  next_level-duplicate [] x h = refl
  next_level-duplicate (a ∷ []) x h = absurd (omega arith)
  next_level-duplicate (a ∷ b ∷ pairs) x h =
      ap (◌∷◌ (combine a b)) (next_level-duplicate pairs x (omega arith))

  root_of : ℕ → List Bytes → Bytes
  root_of fuel level = get_root (grow combine fuel level)

  root_of-suc :
      (fuel : ℕ) (level : List Bytes)
      → root_of (suc fuel) level ≡ (
          if ltb 1 (length level)
          then root_of fuel (next_level combine level)
          else get_or level 0 [])
  unfolding root_of grow get_root
  root_of-suc fuel level = elim (Bool-cases (ltb 1 (length level))) [
    | inl more ↦ let (upper, e) = grow-cons combine fuel (next_level combine level) in rw (more, e)
    | inr one ↦ rw one
  ]

  more_than_one : (level : List Bytes) → 1 < length level → ltb 1 (length level) ≡ true
  more_than_one level h = ground arith

  -- More rounds than are needed do not change the root.
  root_of-more :
      (fuel : ℕ) (level : List Bytes)
      → length level ≤ fuel
      → 0 < length level
      → root_of (suc fuel) level ≡ root_of fuel level
  root_of-more zero level f h = absurd (omega arith)
  root_of-more (suc fuel) level f h = elim (Bool-cases (ltb 1 (length level))) [
    | inl more ↦
        let next = next_level combine level in
        let small : length next ≤ fuel = ground (arith, length-next_level combine level) in
        let some_left : 0 < length next = omega (arith, length-next_level combine level) in
        rw (root_of-suc (suc fuel) level, root_of-suc fuel level, more)
          (root_of-more fuel next small some_left)
    | inr one ↦ rw (root_of-suc (suc fuel) level, root_of-suc fuel level, one)
  ]

  root_of-duplicate :
      (pairs : List Bytes) (x : Bytes) (fuel : ℕ)
      → length pairs % 2 ≡ 0
      → 0 < length pairs
      → length pairs ≤ fuel
      → root_of (suc (suc fuel)) (pairs ++ (x ∷ x ∷ [])) ≡ root_of (suc fuel) (pairs ++ (x ∷ []))
  root_of-duplicate pairs x fuel even some_pair small =
      let odd = pairs ++ (x ∷ []) in
      let size = length-append pairs (x ∷ []) in
      let doubled = length-append pairs (x ∷ x ∷ []) in
      rw
        (
          root_of-suc (suc fuel) (pairs ++ (x ∷ x ∷ [])),
          root_of-suc fuel odd,
          more_than_one (pairs ++ (x ∷ x ∷ [])) (omega arith),
          more_than_one odd (omega arith),
          ← next_level-duplicate pairs x even,
        )
        (root_of-more fuel (next_level combine odd) (omega (arith, length-next_level combine odd))
          (omega (arith, length-next_level combine odd)))

build_root :
    (crypto : Crypto) (leaves : List Bytes)
    → 0 < length leaves
    → get_root (build crypto leaves) ≡ root_of (hash_pair crypto) (length leaves) leaves
unfolding build root_of
build_root crypto [] h = absurd (omega arith)
build_root crypto (leaf ∷ leaves) h = refl

-- For any nonempty even number of leaves and one more leaf, the tree of all of them has the same
-- root as the tree in which the last leaf stands twice, so a root does not determine the leaves.
pub get_root-duplicate :
    (crypto : Crypto) (pairs : List Bytes) (x : Bytes)
    → length pairs % 2 ≡ 0
    → 0 < length pairs
    → (get_root (build crypto (pairs ++ (x ∷ x ∷ [])))
        ≡ get_root (build crypto (pairs ++ (x ∷ []))))
      × (pairs ++ (x ∷ x ∷ []) ≢ pairs ++ (x ∷ []))
get_root-duplicate crypto pairs x even some_pair =
    let odd = length-append pairs (x ∷ []) in
    let doubled = length-append pairs (x ∷ x ∷ []) in
    let plus_one : length pairs + 1 ≡ suc (length pairs) = omega arith in
    let plus_two : length pairs + 2 ≡ suc (suc (length pairs)) = omega arith in
    (
      rw
          (
            build_root crypto (pairs ++ (x ∷ x ∷ [])) (omega arith),
            build_root crypto (pairs ++ (x ∷ [])) (omega arith),
            odd,
            doubled,
            plus_one,
            plus_two,
          )
          (root_of-duplicate (hash_pair crypto) pairs x (length pairs) even some_pair
            (omega arith)),
      λ e. absurd (omega (arith, odd, doubled, ap length e)),
    )
