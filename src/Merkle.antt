-- ===== src/Merkle.antt =====
-- Merkle trees: `mermai_merkle_tree` with its proofs (include/mermai/mermai_merkle.hpp and
-- src/core/mermai_merkle.cpp), and the tree hash of a block's transactions
-- (`mermai_merkle_tree::calculate_tree_hash` of src/db/mermai_db.cpp). A hash is its hexadecimal
-- text.
pub mod Completeness
pub mod Binding
pub mod Duplication
mod Tests
use mermai_blockchain.Base.{
  ℕ, zero, suc, ◌+◌, ◌-◌, ◌*◌, ◌/◌, ◌%◌, Bool, true, false, ◌&&◌, ◌||◌, not, List, [], ◌∷◌, ◌++◌,
  map, ltb, leb, length, get_or, is_empty, if◌then◌else◌,
}
use mermai_blockchain.Base.Key.{Bytes, nat_key, bytes_key, ◌==◌}
use mermai_blockchain.Base.{replicate}
use mermai_blockchain.Crypto.{Crypto, hex_encode}
use mermai_blockchain.Transaction.{Transaction, transaction_hash}

pub record ProofStep : Type 0 where
  pub hash : Bytes
  pub is_right : Bool

pub record MerkleProof : Type 0 where
  pub leaf_hash : Bytes
  pub steps : List ProofStep

-- What `strtol(…, 16)` makes of one character: its value, or 16 if it is no digit.
unfoldable pub hex_value : ℕ → ℕ
hex_value c =
    if leb b'0' c && leb c b'9'
    then c - b'0'
    else if leb b'a' c && leb c b'f'
    then c - b'a' + 10
    else if leb b'A' c && leb c b'F'
    then c - b'A' + 10
    else 16

is_space : ℕ → Bool
is_space c = c == 32 || (leb 9 c && leb c 13)

-- `(uint8_t)strtol(byteString.c_str(), nullptr, 16)` of two characters: leading white space and a
-- sign are skipped, and reading stops at the first character that is no digit.
unfoldable pub hex_byte : ℕ → ℕ → ℕ
unfolding hex_value is_space
hex_byte c d =
    let high = hex_value c in
    let low = hex_value d in
    if ltb high 16
    then (if ltb low 16 then high * 16 + low else high)
    else if ltb low 16
    then (if is_space c || c == b'+' then low else if c == b'-' then (256 - low) % 256 else 0)
    else 0

unfoldable pub hex_to_bytes : Bytes → Bytes
unfolding hex_byte
hex_to_bytes [] = []
hex_to_bytes (c ∷ []) = []
hex_to_bytes (c ∷ d ∷ hex) = hex_byte c d ∷ hex_to_bytes hex

-- `mermai_merkle_tree::hash_leaf`
unfoldable pub hash_leaf : Crypto → Bytes → Bytes
hash_leaf crypto leaf = hex_encode (crypto.sha256 leaf)

-- `mermai_merkle_tree::hash_pair`
unfoldable pub hash_pair : Crypto → Bytes → Bytes → Bytes
hash_pair crypto left_hex right_hex =
    hex_encode (crypto.sha256 (hex_to_bytes left_hex ++ hex_to_bytes right_hex))

-- `mermai_merkle_tree::hash_combine` of src/db/mermai_db.cpp, which hashes the text itself.
unfoldable pub hash_combine : Crypto → Bytes → Bytes → Bytes
hash_combine crypto left right = hex_encode (crypto.sha256 (left ++ right))

module _ (combine : Bytes → Bytes → Bytes) where
  -- The loop that makes the next level: pairs from the left, a last odd one with itself.
  unfoldable pub next_level : List Bytes → List Bytes
  next_level [] = []
  next_level (left ∷ []) = combine left left ∷ []
  next_level (left ∷ right ∷ level) = combine left right ∷ next_level level

  -- The loop `while (levels.back().size() > 1)`, from the last level that there is.
  unfoldable pub grow : ℕ → List Bytes → List (List Bytes)
  unfolding next_level
  grow zero level = level ∷ []
  grow (suc fuel) level =
      level ∷ (elim (ltb 1 (length level)) [ true ↦ grow fuel (next_level level) | false ↦ [] ])

-- `mermai_merkle_tree::build`: the levels from the leaves up. Each round at least halves a level
-- of two or more, so as many rounds as there are leaves are enough.
unfoldable pub build : Crypto → List Bytes → List (List Bytes)
build crypto leaf_hashes =
    if is_empty leaf_hashes
    then (hex_encode (crypto.sha256 []) ∷ []) ∷ []
    else grow (hash_pair crypto) (length leaf_hashes) leaf_hashes

-- `levels.back()`
abbrev pub last_level : List (List Bytes) → List Bytes
last_level [] = []
last_level (level ∷ []) = level
last_level (level ∷ upper ∷ levels) = last_level (upper ∷ levels)

-- `mermai_merkle_tree::get_root`
unfoldable pub get_root : List (List Bytes) → Bytes
get_root levels = get_or (last_level levels) 0 []

-- `mermai_merkle_tree::get_leaf_count`
unfoldable pub get_leaf_count : List (List Bytes) → ℕ
get_leaf_count [] = 0
get_leaf_count (leaves ∷ levels) = length leaves

-- `mermai_merkle_tree::get_leaf`
unfoldable pub get_leaf : List (List Bytes) → ℕ → Bytes
get_leaf [] index = []
get_leaf (leaves ∷ levels) index = if leb (length leaves) index then [] else get_or leaves index []

-- The step of the proof at one level.
unfoldable pub proof_step : List Bytes → ℕ → ProofStep
proof_step level index =
    let is_right_child = not (index % 2 == 0) in
    let sibling_index = if is_right_child then index - 1 else index + 1 in
    record {
      hash =
          if ltb sibling_index (length level)
          then get_or level sibling_index []
          else get_or level index [];
      is_right = not is_right_child;
    }

-- The loop of `generate_proof`, over all levels but the last.
unfoldable pub proof_steps : List (List Bytes) → ℕ → List ProofStep
unfolding proof_step
proof_steps [] index = []
proof_steps (level ∷ []) index = []
proof_steps (level ∷ upper ∷ levels) index =
    proof_step level index ∷ proof_steps (upper ∷ levels) (index / 2)

-- `mermai_merkle_tree::generate_proof`
unfoldable pub generate_proof : List (List Bytes) → ℕ → MerkleProof
unfolding proof_steps
generate_proof [] leaf_index = record { leaf_hash = []; steps = [] }
generate_proof (leaves ∷ levels) leaf_index =
    if leb (length leaves) leaf_index then record { leaf_hash = []; steps = [] } else record {
      leaf_hash = get_or leaves leaf_index [];
      steps = proof_steps (leaves ∷ levels) leaf_index;
    }

-- The loop of `verify_proof`, from `current_hash`.
unfoldable pub apply_steps : (Bytes → Bytes → Bytes) → Bytes → List ProofStep → Bytes
apply_steps combine current_hash [] = current_hash
apply_steps combine current_hash (s ∷ steps) =
    apply_steps combine
      (if s.is_right then combine current_hash s.hash else combine s.hash current_hash) steps

-- `mermai_merkle_tree::verify_proof`
unfoldable pub verify_proof : Crypto → Bytes → Bytes → MerkleProof → Bool
unfolding apply_steps
verify_proof crypto expected_root leaf_hash proof =
    apply_steps (hash_pair crypto) leaf_hash proof.steps == expected_root

-- `mermai_merkle_tree::calculate_tree_hash`: the loop keeps only the current level.
unfoldable pub calculate_tree_hash : Crypto → List Transaction → Bytes
calculate_tree_hash crypto transactions =
    let level = map (transaction_hash crypto) transactions in
    if is_empty transactions
    then replicate 64 b'0'
    else get_or (last_level (grow (hash_combine crypto) (length level) level)) 0 []

-- `mermai_merkle_tree::verify_tree`
unfoldable pub verify_tree : Crypto → List Transaction → Bytes → Bytes
unfolding calculate_tree_hash
verify_tree crypto transactions expected_root =
    if calculate_tree_hash crypto transactions == expected_root
    then calculate_tree_hash crypto transactions
    else []
