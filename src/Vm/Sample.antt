-- ===== src/Vm/Sample.antt =====
-- A header for tests: the code of an opcode is its place in a list.
use mermai_blockchain.Base.{ℕ, refl, List, [], ◌∷◌, get_elem?}
use mermai_blockchain.Vm.{
  Opcode, op_push0, op_push1, op_push32, op_pop, op_add, op_mul, op_sub, op_div, op_mod, op_dup1,
  op_swap1, op_lt, op_gt, op_eq, op_mload, op_mstore, op_sload, op_sstore, op_jmp, op_jmpi,
  op_caller, op_callvalue, op_timestamp, op_gaslimit, op_return, op_revert, op_stop, VmHeader,
  HasDistinctCodes,
}

abbrev pub opcodes : List Opcode
opcodes =
    op_push0 ∷ op_push1 ∷ op_push32 ∷ op_pop ∷ op_add ∷ op_mul ∷ op_sub ∷ op_div ∷ op_mod ∷ op_dup1
    ∷ op_swap1 ∷ op_lt ∷ op_gt ∷ op_eq ∷ op_mload ∷ op_mstore ∷ op_sload ∷ op_sstore ∷ op_jmp
    ∷ op_jmpi ∷ op_caller ∷ op_callvalue ∷ op_timestamp ∷ op_gaslimit ∷ op_return ∷ op_revert
    ∷ op_stop ∷ []

abbrev pub sample_code : Opcode → ℕ
sample_code op_push0 = 0
sample_code op_push1 = 1
sample_code op_push32 = 2
sample_code op_pop = 3
sample_code op_add = 4
sample_code op_mul = 5
sample_code op_sub = 6
sample_code op_div = 7
sample_code op_mod = 8
sample_code op_dup1 = 9
sample_code op_swap1 = 10
sample_code op_lt = 11
sample_code op_gt = 12
sample_code op_eq = 13
sample_code op_mload = 14
sample_code op_mstore = 15
sample_code op_sload = 16
sample_code op_sstore = 17
sample_code op_jmp = 18
sample_code op_jmpi = 19
sample_code op_caller = 20
sample_code op_callvalue = 21
sample_code op_timestamp = 22
sample_code op_gaslimit = 23
sample_code op_return = 24
sample_code op_revert = 25
sample_code op_stop = 26

abbrev pub sample_header : VmHeader
sample_header = record {
  code = sample_code;
  decode = λ byte. get_elem? opcodes byte;
  gas_push = 3;
  gas_add = 3;
  gas_mul = 5;
  gas_sload = 200;
  gas_sstore = 5000;
}

pub sample_header-HasDistinctCodes : HasDistinctCodes sample_header
sample_header-HasDistinctCodes op_push0 = refl
sample_header-HasDistinctCodes op_push1 = refl
sample_header-HasDistinctCodes op_push32 = refl
sample_header-HasDistinctCodes op_pop = refl
sample_header-HasDistinctCodes op_add = refl
sample_header-HasDistinctCodes op_mul = refl
sample_header-HasDistinctCodes op_sub = refl
sample_header-HasDistinctCodes op_div = refl
sample_header-HasDistinctCodes op_mod = refl
sample_header-HasDistinctCodes op_dup1 = refl
sample_header-HasDistinctCodes op_swap1 = refl
sample_header-HasDistinctCodes op_lt = refl
sample_header-HasDistinctCodes op_gt = refl
sample_header-HasDistinctCodes op_eq = refl
sample_header-HasDistinctCodes op_mload = refl
sample_header-HasDistinctCodes op_mstore = refl
sample_header-HasDistinctCodes op_sload = refl
sample_header-HasDistinctCodes op_sstore = refl
sample_header-HasDistinctCodes op_jmp = refl
sample_header-HasDistinctCodes op_jmpi = refl
sample_header-HasDistinctCodes op_caller = refl
sample_header-HasDistinctCodes op_callvalue = refl
sample_header-HasDistinctCodes op_timestamp = refl
sample_header-HasDistinctCodes op_gaslimit = refl
sample_header-HasDistinctCodes op_return = refl
sample_header-HasDistinctCodes op_revert = refl
sample_header-HasDistinctCodes op_stop = refl
