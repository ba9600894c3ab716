-- ===== src/Vm/Halting.antt =====
-- When `execute` returns, and when it does not.
use mermai_blockchain.Base.{
  ℕ, zero, suc, ◌+◌, ◌-◌, ◌≤◌, ◌<◌, ◌≡◌, refl, subst, Bool, true, false, some, [], ◌∷◌, arith,
  length, get_elem?, Bool-cases, Option-cases, inl, inr,
}
use mermai_blockchain.Base.Key.{Bytes, nat_key, bytes_key}
use mermai_blockchain.Vm.{
  Opcode, op_push0, op_push1, op_push32, op_pop, op_add, op_mul, op_sub, op_div, op_mod, op_dup1,
  op_swap1, op_lt, op_gt, op_eq, op_mload, op_mstore, op_sload, op_sstore, op_jmp, op_jmpi,
  op_caller, op_callvalue, op_timestamp, op_gaslimit, op_return, op_revert, op_stop, VmHeader,
  ExecutionContext, Outcome, continues, returns, crashes,
}
use mermai_blockchain.Vm.Step.{
  push_word, pop_one, pop_two, push_code, divide, load_word_from_memory, store_word_to_memory,
  perform, dispatch, check_gas, round, loop, execute,
}

-- The machine goes on, further down in the code, unless it halts.
abbrev Advances : ℕ → Outcome → Type 0
Advances pc (continues c) = pc ≤ c.program_counter
Advances pc (returns c result) = Unit
Advances pc crashes = Unit

abbrev pub is_jump : Opcode → Bool
is_jump op_jmp = true
is_jump op_jmpi = true
is_jump _ = false

perform-Advances :
    (h : VmHeader) (now : ℕ) (code : Bytes) (op : Opcode) (c : ExecutionContext)
    → is_jump op ≡ false
    → Advances c.program_counter (perform h now code op c)
unfolding perform push_word pop_one pop_two push_code divide load_word_from_memory
    store_word_to_memory
perform-Advances h now code op_push0 c j = ground arith
perform-Advances h now code op_push1 c j = ground arith
perform-Advances h now code op_push32 c j = ground arith
perform-Advances h now code op_pop c j = ground arith
perform-Advances h now code op_add c j = ground arith
perform-Advances h now code op_mul c j = ground arith
perform-Advances h now code op_sub c j = ground arith
perform-Advances h now code op_div c j = ground arith
perform-Advances h now code op_mod c j = ground arith
perform-Advances h now code op_dup1 c j = ground arith
perform-Advances h now code op_swap1 c j = ground arith
perform-Advances h now code op_lt c j = ground arith
perform-Advances h now code op_gt c j = ground arith
perform-Advances h now code op_eq c j = ground arith
perform-Advances h now code op_mload c j = ground arith
perform-Advances h now code op_mstore c j = ground arith
perform-Advances h now code op_sload c j = ground arith
perform-Advances h now code op_sstore c j = ground arith
perform-Advances h now code op_jmp c j = cc
perform-Advances h now code op_jmpi c j = cc
perform-Advances h now code op_caller c j = ground arith
perform-Advances h now code op_callvalue c j = ground arith
perform-Advances h now code op_timestamp c j = ground arith
perform-Advances h now code op_gaslimit c j = ground arith
perform-Advances h now code op_return c j = ground arith
perform-Advances h now code op_revert c j = ground arith
perform-Advances h now code op_stop c j = ground arith

-- The machine has gone on from a place inside the code, or it is done.
abbrev GoesOn : ℕ → ℕ → Outcome → Type 0
GoesOn size pc (continues c) = (pc < size) × (pc < c.program_counter)
GoesOn size pc (returns c result) = Unit
GoesOn size pc crashes = Unit

-- `execute` has returned, or the process has ended.
abbrev pub Halts : Outcome → Type 0
Halts (continues c) = ⊥
Halts (returns c result) = Unit
Halts crashes = Unit

-- No byte of the code is the code of a jump.
abbrev pub HasNoJumps : VmHeader → Bytes → Type 0
HasNoJumps h code =
    (pc byte : ℕ) (op : Opcode)
    → get_elem? code pc ≡ some byte
    → h.decode byte ≡ some op
    → is_jump op ≡ false

get_elem?-lt : (code : Bytes) (pc byte : ℕ) → get_elem? code pc ≡ some byte → pc < length code
get_elem?-lt [] pc byte e = cc
get_elem?-lt (b ∷ code) zero byte e = omega arith
get_elem?-lt (b ∷ code) (suc pc) byte e = omega (arith, get_elem?-lt code pc byte e)

Advances-GoesOn : (size pc : ℕ) (o : Outcome) → pc < size → Advances (pc + 1) o → GoesOn size pc o
Advances-GoesOn size pc (continues c) h a = (h, omega arith)
Advances-GoesOn size pc (returns c result) h a = tt
Advances-GoesOn size pc crashes h a = tt

dispatch-GoesOn :
    (h : VmHeader) (now : ℕ) (code : Bytes) (byte pc : ℕ) (c : ExecutionContext)
    → HasNoJumps h code
    → get_elem? code pc ≡ some byte
    → c.program_counter ≡ pc + 1
    → GoesOn (length code) pc (dispatch h now code byte c)
unfolding dispatch
dispatch-GoesOn h now code byte pc c jumps read next = elim (Option-cases (h.decode byte)) [
  | inl unknown ↦ rw (unknown, dispatch) tt
  | inr (op, known) ↦
      rw (known, dispatch)
        (Advances-GoesOn (length code) pc (perform h now code op c) (get_elem?-lt code pc byte read)
          (subst (λ k. Advances k (perform h now code op c)) next
            (perform-Advances h now code op c (jumps pc byte op read known))))
]

round-GoesOn :
    (h : VmHeader) (now : ℕ) (code : Bytes) (c : ExecutionContext)
    → HasNoJumps h code
    → GoesOn (length code) c.program_counter (round h now code c)
unfolding round
round-GoesOn h now code c jumps = elim (Bool-cases c.halted) [
  | inl over ↦ rw over tt
  | inr live ↦ (elim (Option-cases (get_elem? code c.program_counter)) [
    | inl done ↦ rw (live, done) tt
    | inr (byte, read) ↦ (elim (Bool-cases (check_gas 1 c)) [
      | inr spent ↦ rw (live, read, spent) tt
      | inl enough ↦
          rw (live, read, enough)
            (dispatch-GoesOn h now code byte c.program_counter
              (record c { program_counter = c.program_counter + 1 }) jumps read refl)
    ])
  ])
]

-- The rest of the loop, after a round.
follow : VmHeader → (ℕ → ℕ) → Bytes → ℕ → Outcome → Outcome
follow h clock code fuel (continues next) = loop h clock code fuel next
follow h clock code fuel (returns final result) = returns final result
follow h clock code fuel crashes = crashes

loop-suc :
    (h : VmHeader) (clock : ℕ → ℕ) (code : Bytes) (fuel : ℕ) (c : ExecutionContext) (o : Outcome)
    → round h (clock fuel) code c ≡ o
    → loop h clock code (suc fuel) c ≡ follow h clock code fuel o
unfolding loop follow
loop-suc h clock code fuel c (continues next) e = ground (arith, e)
loop-suc h clock code fuel c (returns final result) e = ground (arith, e)
loop-suc h clock code fuel c crashes e = ground (arith, e)

follow-Halts :
    (h : VmHeader) (clock : ℕ → ℕ) (code : Bytes) (fuel pc : ℕ) (o : Outcome)
    → ((c : ExecutionContext)
        → length code - c.program_counter < fuel
        → Halts (loop h clock code fuel c))
    → length code - pc < suc fuel
    → GoesOn (length code) pc o
    → Halts (follow h clock code fuel o)
unfolding follow
follow-Halts h clock code fuel pc (continues next) rest enough goes = rest next (omega arith)
follow-Halts h clock code fuel pc (returns final result) rest enough goes = tt
follow-Halts h clock code fuel pc crashes rest enough goes = tt

loop-Halts :
    (h : VmHeader) (clock : ℕ → ℕ) (code : Bytes)
    → HasNoJumps h code
    → (fuel : ℕ) (c : ExecutionContext) → length code - c.program_counter < fuel
    → Halts (loop h clock code fuel c)
loop-Halts h clock code jumps zero c enough = absurd (omega arith)
loop-Halts h clock code jumps (suc fuel) c enough =
    rw (loop-suc h clock code fuel c (round h (clock fuel) code c) refl) (
      follow-Halts h clock code fuel c.program_counter (round h (clock fuel) code c)
        (loop-Halts h clock code jumps fuel) enough (round-GoesOn h (clock fuel) code c jumps))

-- Code without the opcodes JMP and JMPI is run to its end in at most one round more than it has
-- bytes, whatever the gas.
pub execute-Halts :
    (h : VmHeader) (clock : ℕ → ℕ) (code : Bytes) (c : ExecutionContext)
    → HasNoJumps h code
    → Halts (execute h clock code (length code + 1) c)
unfolding execute
execute-Halts h clock code c jumps =
    loop-Halts h clock code jumps (length code + 1)
      (record c { program_counter = 0; halted = false }) (omega arith)
