-- ===== src/Crypto.antt =====
-- What the program takes from OpenSSL, as a parameter, and the hexadecimal text that it makes of
-- bytes: `hash_to_hex` of src/core/mermai_blockchain.cpp and its copies in the other files.
pub mod Sample
use mermai_blockchain.Base.{ℕ, ◌+◌, ◌-◌, ◌/◌, ◌%◌, Bool, List, [], ◌∷◌, Option, ltb, if◌then◌else◌}
use mermai_blockchain.Base.Key.{Bytes}

-- Byte vectors stand for keys in DER form, hashes and signatures.
pub record Crypto : Type 0 where
  -- `SHA256`
  pub sha256 : Bytes → Bytes
  -- `d2i_PUBKEY` accepts the bytes.
  pub parses_key : Bytes → Bool
  -- `d2i_PUBKEY` accepts the bytes and uses all of them.
  pub parses_whole_key : Bytes → Bool
  -- `EVP_DigestVerify` with SHA-256, by a public key, of a payload, for a signature.
  pub digest_verify : Bytes → Bytes → Bytes → Bool
  -- `i2d_PUBKEY` of a private key, itself given as bytes; none is no output.
  pub public_key_of : Bytes → Option Bytes
  -- `EVP_DigestSign` with SHA-256, by a private key, of a payload.
  pub digest_sign : Bytes → Bytes → Option Bytes

-- `std::hex` with width 2 and fill '0', on a byte.
unfoldable pub hex_digit : ℕ → ℕ
hex_digit d = if ltb d 10 then b'0' + d else b'a' + (d - 10)

unfoldable pub hex_encode : Bytes → Bytes
unfolding hex_digit
hex_encode [] = []
hex_encode (b ∷ bytes) = hex_digit (b / 16) ∷ hex_digit (b % 16) ∷ hex_encode bytes
