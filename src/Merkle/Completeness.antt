-- ===== src/Merkle/Completeness.antt =====
-- The proof that is generated for a leaf leads to the root.
use mermai_blockchain.Base.{
  ℕ, zero, suc, ◌+◌, ◌-◌, ◌/◌, ◌≤◌, ◌<◌, ◌≡◌, ◌≢◌, refl, ap, sym, ◌∙◌, true, false, List, [], ◌∷◌,
  arith, ltb, length, get_or, Bool-cases, inl, inr,
}
use mermai_blockchain.Base.Key.{Bytes, bytes_key, nat_key, bytes_beq_refl}
use mermai_blockchain.Crypto.{Crypto}
use mermai_blockchain.Merkle.{
  hash_pair, next_level, grow, build, last_level, get_root, get_leaf, proof_step, proof_steps,
  generate_proof, apply_steps, verify_proof,
}

suc-suc_add : (i : ℕ) → suc (suc i) + 1 ≡ suc (suc (i + 1))
suc-suc_add i = omega arith

suc-suc_sub : (i : ℕ) → suc (suc (suc i)) - 1 ≡ suc (suc i)
suc-suc_sub i = omega arith

suc_sub_one : (i : ℕ) → suc i - 1 ≡ i
suc_sub_one i = omega arith

suc-suc_half : (i : ℕ) → suc (suc i) / 2 ≡ suc (i / 2)
suc-suc_half i = omega arith

module _ (a b : Bytes) (level : List Bytes) where
  right_drop : (i : ℕ) → get_or (a ∷ b ∷ level) (suc (suc i) + 1) [] ≡ get_or level (i + 1) []
  right_drop i = ap (λ k. get_or (a ∷ b ∷ level) k []) (suc-suc_add i)

  left_drop :
      (i : ℕ) → i ≢ 0 → get_or (a ∷ b ∷ level) (suc (suc i) - 1) [] ≡ get_or level (i - 1) []
  left_drop zero h = absurd (h refl)
  left_drop (suc i) h =
      ap (λ k. get_or (a ∷ b ∷ level) k []) (suc-suc_sub i)
      ∙ ap (λ k. get_or level k []) (sym (suc_sub_one i))

  -- Past a pair, the proof step is that of the rest of the level.
  proof_step-drop : (i : ℕ) → proof_step (a ∷ b ∷ level) (suc (suc i)) ≡ proof_step level i
  unfolding proof_step
  proof_step-drop i = ground (arith, right_drop i, left_drop i)

module _ (combine : Bytes → Bytes → Bytes) where
  pub length-next_level :
      (level : List Bytes) → length (next_level combine level) ≡ (length level + 1) / 2
  unfolding next_level
  length-next_level [] = omega arith
  length-next_level (a ∷ []) = omega arith
  length-next_level (a ∷ b ∷ level) = omega (arith, length-next_level level)

  -- One step of a proof computes the parent in the next level.
  step_to_parent :
      (level : List Bytes) (i : ℕ)
      → i < length level
      → apply_steps combine (get_or level i []) (proof_step level i ∷ [])
        ≡ get_or (next_level combine level) (i / 2) []
  unfolding next_level apply_steps
  step_to_parent [] i h = absurd (omega arith)
  step_to_parent (a ∷ []) zero h = unfold proof_step in refl
  step_to_parent (a ∷ []) (suc i) h = absurd (omega arith)
  step_to_parent (a ∷ b ∷ level) zero h = unfold proof_step in ground arith
  step_to_parent (a ∷ b ∷ level) (suc zero) h = unfold proof_step in ground arith
  step_to_parent (a ∷ b ∷ level) (suc (suc i)) h =
      rw (proof_step-drop a b level i, suc-suc_half i) (step_to_parent level i (omega arith))

  pub grow-cons :
      (fuel : ℕ) (level : List Bytes)
      → (upper : List (List Bytes)) × (grow combine fuel level ≡ level ∷ upper)
  unfolding grow
  grow-cons zero level = ([], refl)
  grow-cons (suc fuel) level = (_, refl)

  climb :
      (level next : List Bytes) (upper : List (List Bytes)) (i : ℕ)
      → apply_steps combine (get_or level i []) (proof_step level i ∷ []) ≡ get_or next (i / 2) []
      → apply_steps combine (get_or next (i / 2) []) (proof_steps (next ∷ upper) (i / 2))
        ≡ get_root (next ∷ upper)
      → apply_steps combine (get_or level i []) (proof_steps (level ∷ next ∷ upper) i)
        ≡ get_root (level ∷ next ∷ upper)
  unfolding apply_steps proof_steps get_root
  climb level next upper i step above =
      ap (λ current. apply_steps combine current (proof_steps (next ∷ upper) (i / 2))) step ∙ above

  at_the_top :
      (level : List Bytes) (i : ℕ)
      → i < length level
      → ltb 1 (length level) ≡ false
      → apply_steps combine (get_or level i []) (proof_steps (level ∷ []) i) ≡ get_root (level ∷ [])
  unfolding apply_steps proof_steps get_root
  at_the_top [] i h one = absurd (omega arith)
  at_the_top (a ∷ level) zero h one = refl
  at_the_top (a ∷ []) (suc i) h one = absurd (omega arith)
  at_the_top (a ∷ b ∷ level) (suc i) h one = ground arith

  -- From any position of a level, the steps through the levels above it lead to the root.
  steps_to_root :
      (fuel : ℕ) (level : List Bytes) (i : ℕ)
      → length level ≤ fuel
      → i < length level
      → apply_steps combine (get_or level i []) (proof_steps (grow combine fuel level) i)
        ≡ get_root (grow combine fuel level)
  unfolding grow
  steps_to_root zero level i f h = absurd (omega arith)
  steps_to_root (suc fuel) level i f h = elim (Bool-cases (ltb 1 (length level))) [
    | inl more ↦
        let next = next_level combine level in
        let (upper, e) = grow-cons fuel next in
        let small : length next ≤ fuel = ground (arith, length-next_level level) in
        let inside : i / 2 < length next = omega (arith, length-next_level level) in
        rw (more, e)
          (climb level next upper i (step_to_parent level i h)
            (rw e at (steps_to_root fuel next (i / 2) small inside)))
    | inr one ↦ rw one (at_the_top level i h one)
  ]

  pub length-last_level :
      (fuel : ℕ) (level : List Bytes)
      → length level ≤ fuel
      → 0 < length level
      → length (last_level (grow combine fuel level)) ≡ 1
  unfolding grow
  length-last_level zero level f h = absurd (omega arith)
  length-last_level (suc fuel) level f h = elim (Bool-cases (ltb 1 (length level))) [
    | inl more ↦
        let next = next_level combine level in
        let (upper, e) = grow-cons fuel next in
        let small : length next ≤ fuel = ground (arith, length-next_level level) in
        rw (more, e)
          (rw e at (length-last_level fuel next small (omega (arith, length-next_level level))))
    | inr one ↦ rw one (ground arith)
  ]

-- The number of rounds is enough: the last level that `build` makes is the root alone.
length-last_level-build :
    (crypto : Crypto) (leaf_hashes : List Bytes)
    → length (last_level (build crypto leaf_hashes)) ≡ 1
unfolding build
length-last_level-build crypto [] = refl
length-last_level-build crypto (leaf ∷ leaves) =
    length-last_level (hash_pair crypto) (length (leaf ∷ leaves)) (leaf ∷ leaves) (omega arith)
      (omega arith)

generate_proof_inside :
    (leaves : List Bytes) (upper : List (List Bytes)) (index : ℕ)
    → index < length leaves
    → generate_proof (leaves ∷ upper) index
      ≡ record { leaf_hash = get_or leaves index []; steps = proof_steps (leaves ∷ upper) index }
unfolding generate_proof
generate_proof_inside leaves upper index h = ground arith

get_leaf_inside :
    (leaves : List Bytes) (upper : List (List Bytes)) (index : ℕ)
    → index < length leaves
    → get_leaf (leaves ∷ upper) index ≡ get_or leaves index []
unfolding get_leaf
get_leaf_inside leaves upper index h = ground arith

-- Every leaf is proved: for any leaves and any index among them, the proof that the tree generates
-- carries the leaf of that index, and verifies it against the root of the tree.
pub verify-generate_proof :
    (crypto : Crypto) (leaf_hashes : List Bytes) (index : ℕ)
    → index < length leaf_hashes
    → let levels = build crypto leaf_hashes in
      (verify_proof crypto
          (get_root levels)
          (get_or leaf_hashes index [])
          (generate_proof levels index)
        ≡ true)
      × ((generate_proof levels index).leaf_hash ≡ get_or leaf_hashes index [])
      × (get_leaf levels index ≡ get_or leaf_hashes index [])
unfolding build verify_proof
verify-generate_proof crypto [] index h = absurd (omega arith)
verify-generate_proof crypto (leaf ∷ leaves) index h =
    let all = leaf ∷ leaves in
    let (upper, e) = grow-cons (hash_pair crypto) (length all) all in
    let root = steps_to_root (hash_pair crypto) (length all) all index (omega arith) h in
    rw (e, generate_proof_inside all upper index h, get_leaf_inside all upper index h)
      (rw (rw e at root) (bytes_beq_refl (get_root (all ∷ upper))), refl, refl)
