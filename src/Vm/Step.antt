-- ===== src/Vm/Step.antt =====
-- One round of the loop in `mermai_vm::execute`, for each opcode.
use mermai_blockchain.Base.{
  ℕ, zero, suc, ◌+◌, ◌-◌, ◌/◌, ◌%◌, Bool, true, false, ◌&&◌, not, none, some, [], ◌∷◌, ◌++◌, ltb,
  leb, length, get_elem?, take, drop, if◌then◌else◌, replicate,
}
use mermai_blockchain.Base.Words.{add64}
use mermai_blockchain.Base.Key.{Bytes, bytes_key, nat_key, ◌==◌, bytes_less}
use mermai_blockchain.Base.Map.{find_or, insert}
use mermai_blockchain.Vm.{
  Opcode, op_push0, op_push1, op_push32, op_pop, op_add, op_mul, op_sub, op_div, op_mod, op_dup1,
  op_swap1, op_lt, op_gt, op_eq, op_mload, op_mstore, op_sload, op_sstore, op_jmp, op_jmpi,
  op_caller, op_callvalue, op_timestamp, op_gaslimit, op_return, op_revert, op_stop, VmHeader,
  ExecutionContext, Outcome, continues, returns, crashes, throws, out_of_gas, contract_reverted,
  unknown_opcode, stack_underflow, memory_out_of_bounds, invalid_jump_target,
}
use mermai_blockchain.Vm.Words.{
  zero_word, add_word, sub_word, mul_word, low_u64, u64_word, is_zero, bool_word, last_byte,
}

-- `push_word`, with the gas that is charged after it.
unfoldable pub push_word : Bytes → ℕ → ExecutionContext → Outcome
push_word word gas c =
    continues (record c { stack = word ∷ c.stack; gas_used = add64 c.gas_used gas })

-- `if (context.stack.empty()) return false`, then `pop_word`.
unfoldable pub pop_one : ExecutionContext → (Bytes → ExecutionContext → Outcome) → Outcome
pop_one c next = elim c.stack [
  | [] ↦ returns c false
  | top ∷ below ↦ next top (record c { stack = below })
]

-- `if (context.stack.size() < 2) return false`, then `pop_word` twice.
unfoldable pub pop_two : ExecutionContext → (Bytes → Bytes → ExecutionContext → Outcome) → Outcome
pop_two c next = elim c.stack [
  | [] ↦ returns c false
  | top ∷ rest ↦ (elim rest [
    | [] ↦ returns c false
    | second ∷ below ↦ next top second (record c { stack = below })
  ])
]

-- A word of the bytes after the opcode; none is the return for code that ends too early.
unfoldable pub push_code : Bytes → ℕ → ℕ → ExecutionContext → Outcome
unfolding push_word replicate
push_code bytecode size gas c =
    if ltb (length bytecode) (c.program_counter + size)
    then returns c false
    else push_word (replicate (32 - size) 0 ++ take size (drop c.program_counter bytecode)) gas
        (record c { program_counter = c.program_counter + size })

-- The cases DIV and MOD: only the last 8 bytes are divided, once the divisor is not all zero.
unfoldable pub divide : (ℕ → ℕ → ℕ) → ℕ → Bytes → Bytes → ExecutionContext → Outcome
unfolding push_word is_zero zero_word u64_word low_u64
divide operation gas divisor dividend c =
    if is_zero divisor
    then push_word zero_word gas c
    else if low_u64 divisor == 0
    then crashes
    else push_word (u64_word (operation (low_u64 dividend) (low_u64 divisor))) gas c

-- `jump`
unfoldable pub jump : Bytes → ℕ → ExecutionContext → Outcome
jump bytecode target c =
    if leb (length bytecode) target
    then throws invalid_jump_target c
    else continues (record c { program_counter = target })

-- `load_word_from_memory` and the push of the word.
unfoldable pub load_word_from_memory : ℕ → ExecutionContext → Outcome
unfolding push_word
load_word_from_memory offset c =
    if ltb (length c.memory) (offset + 32)
    then throws memory_out_of_bounds c
    else push_word (take 32 (drop offset c.memory)) 0 c

unfoldable pub store_word_to_memory : ℕ → Bytes → ExecutionContext → Outcome
store_word_to_memory offset word c =
    if ltb (length c.memory) (offset + 32)
    then throws memory_out_of_bounds c
    else continues
        (record c { memory = take offset c.memory ++ (word ++ drop (offset + 32) c.memory) })

-- The last bytes of a stored value, at the end of a word.
unfoldable pub storage_word : Bytes → Bytes
unfolding replicate
storage_word value = replicate (32 - length value) 0 ++ drop (length value - 32) value

-- The first bytes of the caller's address, at the start of a word.
unfoldable pub caller_word : Bytes → Bytes
unfolding replicate
caller_word address = take 32 address ++ replicate (32 - length address) 0

-- The bodies of the switch's cases, after the opcode is read, at the time `now`.
unfoldable pub perform : VmHeader → ℕ → Bytes → Opcode → ExecutionContext → Outcome
unfolding push_word pop_one pop_two push_code divide jump load_word_from_memory store_word_to_memory
    storage_word caller_word
perform h now code op_push0 c = push_word zero_word h.gas_push c
perform h now code op_push1 c = push_code code 1 h.gas_push c
perform h now code op_push32 c = push_code code 32 h.gas_push c
perform h now code op_pop c = pop_one c (λ top s. continues s)
perform h now code op_add c = pop_two c (λ b a s. push_word (add_word a b) h.gas_add s)
perform h now code op_mul c = pop_two c (λ b a s. push_word (mul_word a b) h.gas_mul s)
perform h now code op_sub c = pop_two c (λ b a s. push_word (sub_word a b) h.gas_add s)
perform h now code op_div c = pop_two c (λ b a s. divide (λ x y. x / y) h.gas_add b a s)
perform h now code op_mod c = pop_two c (λ b a s. divide (λ x y. x % y) h.gas_add b a s)
perform h now code op_dup1 c = elim c.stack [
  | [] ↦ throws stack_underflow c
  | top ∷ below ↦ push_word top 0 c
]
perform h now code op_swap1 c =
    pop_two c (λ b a s. continues (record s { stack = a ∷ b ∷ s.stack }))
perform h now code op_lt c = pop_two c (λ b a s. push_word (bool_word (bytes_less a b)) 0 s)
perform h now code op_gt c =
    pop_two c (λ b a s. push_word (bool_word (not (a == b) && not (bytes_less a b))) 0 s)
perform h now code op_eq c = pop_two c (λ b a s. push_word (bool_word (a == b)) 0 s)
perform h now code op_mload c = pop_one c (λ offset s. load_word_from_memory (last_byte offset) s)
perform h now code op_mstore c =
    pop_two c (λ offset value s. store_word_to_memory (last_byte offset) value s)
perform h now code op_sload c =
    pop_one c (λ key s. push_word (storage_word (find_or [] key s.storage)) h.gas_sload s)
perform h now code op_sstore c = pop_two c (λ key value s.
    continues
      (record s { storage = insert key value s.storage; gas_used = add64 s.gas_used h.gas_sstore }))
perform h now code op_jmp c = pop_one c (λ target s. jump code (last_byte target) s)
perform h now code op_jmpi c = pop_two c (λ target condition s.
    if is_zero condition then continues s else jump code (last_byte target) s)
perform h now code op_caller c = push_word (caller_word c.caller_address) 0 c
perform h now code op_callvalue c = push_word (u64_word c.call_value) 0 c
perform h now code op_timestamp c = push_word (u64_word now) 0 c
perform h now code op_gaslimit c = push_word (u64_word (c.gas_limit - c.gas_used)) 0 c
perform h now code op_return c = continues (record c { halted = true })
perform h now code op_revert c =
    returns (record c { halted = true; revert_reason = contract_reverted }) false
perform h now code op_stop c = continues (record c { halted = true })

-- `check_gas`
unfoldable pub check_gas : ℕ → ExecutionContext → Bool
check_gas cost c = not (ltb c.gas_limit (add64 c.gas_used cost))

-- The switch: a byte that is no opcode is the default case.
unfoldable pub dispatch : VmHeader → ℕ → Bytes → ℕ → ExecutionContext → Outcome
unfolding perform
dispatch h now code byte c = elim (h.decode byte) [
  | none ↦ throws unknown_opcode c
  | some op ↦ perform h now code op c
]

-- The test of the loop and its body.
unfoldable pub round : VmHeader → ℕ → Bytes → ExecutionContext → Outcome
unfolding dispatch check_gas
round h now code c = if c.halted then returns c true else elim (get_elem? code c.program_counter) [
  | none ↦ returns c true
  | some byte ↦
      if check_gas 1 c
      then dispatch h now code byte (record c { program_counter = c.program_counter + 1 })
      else throws out_of_gas c
]

-- The loop of `execute` on fuel: `continues` is where it stands when the fuel is used up. The
-- clock is read at most once in a round: `clock` gives its reading in each, by the rounds left.
unfoldable pub loop : VmHeader → (ℕ → ℕ) → Bytes → ℕ → ExecutionContext → Outcome
loop h clock code zero c = continues c
loop h clock code (suc fuel) c = elim (round h (clock fuel) code c) [
  | continues next ↦ loop h clock code fuel next
  | returns final result ↦ returns final result
  | crashes ↦ crashes
]

-- The constructor's `context.memory.resize(65536, 0)`.
unfoldable pub new_vm : ExecutionContext → ExecutionContext
new_vm c = record c { memory = take 65536 c.memory ++ replicate (65536 - length c.memory) 0 }

unfoldable pub execute : VmHeader → (ℕ → ℕ) → Bytes → ℕ → ExecutionContext → Outcome
unfolding loop
execute h clock code fuel c =
    loop h clock code fuel (record c { program_counter = 0; halted = false })
