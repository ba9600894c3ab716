-- ===== src/Crypto/Sample.antt =====
-- A concrete instance of the cryptographic parameter, for tests: a hash of fixed length, keys that
-- are their own public part, and signatures that repeat the key and the payload's length.
use mermai_blockchain.Base.{ℕ, ◌+◌, ◌*◌, ◌%◌, not, some, [], ◌∷◌, is_empty}
use mermai_blockchain.Base.Key.{Bytes, bytes_beq}
use mermai_blockchain.Crypto.{Crypto}

abbrev pub checksum : ℕ → Bytes → ℕ
checksum seed [] = seed
checksum seed (b ∷ bytes) = checksum ((seed * 31 + b) % 65521) bytes

abbrev sample_hash : Bytes → Bytes
sample_hash payload = (checksum 7 payload % 256) ∷ (checksum 11 payload % 256) ∷ []

abbrev pub sample_signature : Bytes → Bytes → Bytes
sample_signature key payload = checksum 3 payload ∷ key

abbrev pub sample_crypto : Crypto
sample_crypto = record {
  sha256 = sample_hash;
  parses_key = λ key. not (is_empty key);
  parses_whole_key = λ key. not (is_empty key);
  digest_verify = λ key payload signature. bytes_beq signature (sample_signature key payload);
  public_key_of = λ key. some key;
  digest_sign = λ key payload. some (sample_signature key payload);
}
