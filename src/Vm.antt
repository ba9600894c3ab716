-- ===== src/Vm.antt =====
-- `mermai_vm`: src/vm/mermai_vm.cpp. Its header include/mermai/mermai_vm.hpp is not in the
-- repository: the codes of the opcodes and the prices of gas that stand there are a parameter.
-- A word is the list of its 32 bytes, the most significant first; the top of the stack, which is
-- the vector's last element, is the head of the list.
pub mod Words
pub mod Step
pub mod Halting
pub mod Spinning
pub mod Typed
pub mod Typing
pub mod Sample
mod Tests
use mermai_blockchain.Base.{ℕ, ◌+◌, ◌≡◌, Bool, true, false, Option, some, List, [], ◌∷◌, replicate}
use mermai_blockchain.Base.Key.{Bytes}
use mermai_blockchain.Base.Map.{Map}

-- The enumerators that the source names.
pub data Opcode : Type 0 where
  op_push0 op_push1 op_push32 op_pop : Opcode
  op_add op_mul op_sub op_div op_mod : Opcode
  op_dup1 op_swap1 : Opcode
  op_lt op_gt op_eq : Opcode
  op_mload op_mstore op_sload op_sstore : Opcode
  op_jmp op_jmpi : Opcode
  op_caller op_callvalue op_timestamp op_gaslimit : Opcode
  op_return op_revert op_stop : Opcode

-- What the missing header defines: the code of each opcode, which of them a byte is, and the gas.
pub record VmHeader : Type 0 where
  pub code : Opcode → ℕ
  pub decode : ℕ → Option Opcode
  pub gas_push : ℕ
  pub gas_add : ℕ
  pub gas_mul : ℕ
  pub gas_sload : ℕ
  pub gas_sstore : ℕ

-- No two enumerators have the same value: otherwise the cases of the switch would clash.
abbrev pub HasDistinctCodes : VmHeader → Type 0
HasDistinctCodes header = (op : Opcode) → header.decode (header.code op) ≡ some op

-- `context.revert_reason`: its texts, or none while it is empty.
pub data RevertReason : Type 0 where
  not_reverted : RevertReason
  out_of_gas : RevertReason
  contract_reverted : RevertReason
  unknown_opcode : RevertReason
  stack_underflow : RevertReason
  memory_out_of_bounds : RevertReason
  invalid_jump_target : RevertReason

pub record ExecutionContext : Type 0 where
  pub program_counter : ℕ
  pub halted : Bool
  pub gas_used : ℕ
  pub gas_limit : ℕ
  pub revert_reason : RevertReason
  pub stack : List Bytes
  pub memory : Bytes
  pub storage : Map Bytes Bytes
  pub caller_address : Bytes
  pub call_value : ℕ

-- What one round of the loop in `execute` comes to.
pub data Outcome : Type 0 where
  continues : ExecutionContext → Outcome
  returns : ExecutionContext → Bool → Outcome
  -- An integer division by zero, which ends the process.
  crashes : Outcome

-- An exception is caught in `execute`, which returns false.
abbrev pub throws : RevertReason → ExecutionContext → Outcome
throws reason c = returns (record c { revert_reason = reason }) false
