-- ===== src/Merkle/Tests.antt =====
-- Merkle trees at concrete leaves.
use mermai_blockchain.Base.{ℕ, All, replicate, ◌≡◌, ◌⊎◌, refl, true, List, [], ◌∷◌, ◌++◌, arith}
use mermai_blockchain.Base.Key.{Bytes}
use mermai_blockchain.Crypto.{hex_encode}
use mermai_blockchain.Crypto.Sample.{sample_crypto}
use mermai_blockchain.Merkle.{
  MerkleProof, grow, hex_to_bytes, build, get_root, generate_proof, verify_proof,
}
use mermai_blockchain.Merkle.Completeness.{verify-generate_proof}
use mermai_blockchain.Merkle.Binding.{
  GivesBytes, IsDigest, IsHex, Collides, inputs, verify_proof-binding,
}
use mermai_blockchain.Merkle.Duplication.{get_root-duplicate}

abbrev leaves : List Bytes
leaves = (b'0' ∷ b'a' ∷ []) ∷ (b'0' ∷ b'b' ∷ []) ∷ (b'f' ∷ b'f' ∷ []) ∷ []

hex_to_bytes_text :
    hex_to_bytes (b'f' ∷ b'F' ∷ b'0' ∷ b'x' ∷ b' ' ∷ b'7' ∷ b'-' ∷ b'1' ∷ b'9' ∷ [])
    ≡ 255 ∷ 0 ∷ 7 ∷ 255 ∷ []
unfolding hex_to_bytes
hex_to_bytes_text = refl

verify-generate_proof_example :
    verify_proof sample_crypto
      (get_root (build sample_crypto leaves))
      (b'f' ∷ b'f' ∷ [])
      (generate_proof (build sample_crypto leaves) 2)
    ≡ true
verify-generate_proof_example = (verify-generate_proof sample_crypto leaves 2 (omega arith)).0

-- Two leaves of 32 bytes.
abbrev digest : ℕ → Bytes
digest c = replicate 64 c

abbrev digests : List Bytes
digests = digest b'a' ∷ digest b'b' ∷ []

abbrev root : Bytes
root = get_root (build sample_crypto digests)

abbrev first_proof : MerkleProof
first_proof = generate_proof (build sample_crypto digests) 0

first_proof_accepted : verify_proof sample_crypto root (digest b'a') first_proof ≡ true
first_proof_accepted = (verify-generate_proof sample_crypto digests 0 (omega arith)).0

sample-GivesBytes : GivesBytes sample_crypto
sample-GivesBytes input = (omega arith, (omega arith, tt))

first_proof-IsDigest : All IsDigest first_proof.steps
unfolding generate_proof build grow replicate hex_to_bytes
first_proof-IsDigest = (refl, tt)

digest-IsHex : IsHex (digest b'a')
unfolding hex_encode hex_to_bytes replicate
digest-IsHex = refl

verify_proof-binding_example :
    (digest b'a' ≡ digest b'a')
    ⊎ Collides sample_crypto
        (inputs sample_crypto (digest b'a') first_proof.steps)
        (inputs sample_crypto (digest b'a') first_proof.steps)
verify_proof-binding_example =
    verify_proof-binding sample_crypto root (digest b'a') (digest b'a') first_proof first_proof
      sample-GivesBytes refl first_proof-IsDigest first_proof-IsDigest digest-IsHex digest-IsHex
      first_proof_accepted first_proof_accepted

abbrev pair : List Bytes
pair = (b'0' ∷ b'a' ∷ []) ∷ (b'0' ∷ b'b' ∷ []) ∷ []

get_root-duplicate_example :
    get_root (build sample_crypto (pair ++ ((b'f' ∷ []) ∷ (b'f' ∷ []) ∷ [])))
    ≡ get_root (build sample_crypto (pair ++ ((b'f' ∷ []) ∷ [])))
get_root-duplicate_example =
    (get_root-duplicate sample_crypto pair (b'f' ∷ []) (omega arith) (omega arith)).0
