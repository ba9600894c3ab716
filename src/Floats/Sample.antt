-- ===== src/Floats/Sample.antt =====
-- A concrete instance of the float parameter, for tests: numbers with three decimal places.
use mermai_blockchain.Base.{ℕ, ◌*◌, ◌/◌, ◌%◌, ◌+◌, ◌-◌, [], ltb, leb}
use mermai_blockchain.Floats.{Floats}

abbrev pub sample_floats : Floats
sample_floats = record {
  Float = ℕ;
  of_nat = λ n. 1000 * n;
  to_u64 = λ x. x / 1000;
  ratio = λ a b. 1000 * a / b;
  add = λ x y. x + y;
  sub = λ x y. x - y;
  mul = λ x y. x * y / 1000;
  div = λ x y. 1000 * x / y;
  lt = λ x y. ltb x y;
  le = λ x y. leb x y;
  print = λ x. [];
  fmod = λ n x. 1000 * n % x;
  to_double = λ x. x;
  of_double = λ bits. bits;
  fixed = λ x. [];
}
