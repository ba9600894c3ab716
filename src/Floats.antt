-- ===== src/Floats.antt =====
-- The `float` arithmetic of the C++ implementation, as a parameter: nothing is assumed of it, so
-- that what is shown holds whatever the rounding.
pub mod Sample
use mermai_blockchain.Base.{ℕ, Bool}
use mermai_blockchain.Base.Key.{Bytes}

pub record Floats : Type 1 where
  pub Float : Type 0
  -- `static_cast<float>` of an unsigned integer, and back.
  pub of_nat : ℕ → Float
  pub to_u64 : Float → ℕ
  -- The literal nearest to a quotient.
  pub ratio : ℕ → ℕ → Float
  pub add : Float → Float → Float
  pub sub : Float → Float → Float
  pub mul : Float → Float → Float
  pub div : Float → Float → Float
  pub lt : Float → Float → Bool
  pub le : Float → Float → Bool
  -- `<<` on an output stream.
  pub print : Float → Bytes
  -- `std::fmod` in double precision of an integer by a float, rounded to a float.
  pub fmod : ℕ → Float → Float
  -- The bits of the double that has the value of a float, and the float nearest to a double.
  pub to_double : Float → ℕ
  pub of_double : ℕ → Float
  -- `std::to_string`
  pub fixed : Float → Bytes
