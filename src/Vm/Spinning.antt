-- ===== src/Vm/Spinning.antt =====
-- Two opcodes that run for ever on any amount of gas.
use mermai_blockchain.Base.{
  ℕ, zero, suc, ◌-◌, ◌<◌, ◌≡◌, refl, false, [], ◌∷◌, ◌++◌, arith, length, take, replicate,
}
use mermai_blockchain.Base.Words.{u64_mod}
use mermai_blockchain.Base.Key.{Bytes}
use mermai_blockchain.Vm.{
  op_jmp, op_caller, VmHeader, HasDistinctCodes, ExecutionContext, continues,
}
use mermai_blockchain.Vm.Words.{last_byte}
use mermai_blockchain.Vm.Step.{
  caller_word, push_word, pop_one, jump, perform, dispatch, round, loop, execute,
}

abbrev pub spinning : VmHeader → Bytes
spinning h = h.code op_caller ∷ h.code op_jmp ∷ []

last_byte-zeros : (n : ℕ) (bytes : Bytes) → last_byte (bytes ++ replicate (suc n) 0) ≡ 0
unfolding last_byte replicate
last_byte-zeros zero [] = refl
last_byte-zeros (suc n) [] = last_byte-zeros n []
last_byte-zeros n (a ∷ []) = last_byte-zeros n []
last_byte-zeros n (a ∷ b ∷ bytes) = last_byte-zeros n (b ∷ bytes)

last_byte-caller_word :
    (address : Bytes) → length address < 32 → last_byte (caller_word address) ≡ 0
unfolding caller_word
last_byte-caller_word address h =
    let e : 32 - length address ≡ suc (31 - length address) = omega arith in
    rw e (last_byte-zeros (31 - length address) (take 32 address))

-- The state after the first of the two opcodes.
abbrev called : ExecutionContext → ExecutionContext
called c = record c { program_counter = 1; stack = caller_word c.caller_address ∷ c.stack }

record IsSpinning (c : ExecutionContext) : Type 0 where
  start : c.program_counter ≡ 0
  live : c.halted ≡ false
  gas : c.gas_used < c.gas_limit
  words : c.gas_limit < u64_mod
  caller : length c.caller_address < 32

round-caller :
    (h : VmHeader) (now : ℕ) (c : ExecutionContext)
    → HasDistinctCodes h
    → IsSpinning c
    → round h now (spinning h) c ≡ continues (called c)
unfolding round dispatch perform push_word
round-caller h now c codes s = ground (arith, codes op_caller)

round-jmp :
    (h : VmHeader) (now : ℕ) (c : ExecutionContext)
    → HasDistinctCodes h
    → IsSpinning c
    → round h now (spinning h) (called c) ≡ continues c
unfolding round dispatch perform pop_one jump
round-jmp h now c codes s = ground (arith, codes op_jmp, last_byte-caller_word c.caller_address)

loop-spins :
    (h : VmHeader) (clock : ℕ → ℕ)
    → HasDistinctCodes h
    → (fuel : ℕ) (c : ExecutionContext) → IsSpinning c
    → (later : ExecutionContext) × (loop h clock (spinning h) fuel c ≡ continues later)
      × (later.gas_used ≡ c.gas_used)
unfolding loop
loop-spins h clock codes zero c s = (c, refl, refl)
loop-spins h clock codes (suc zero) c s =
    (called c, ground (arith, round-caller h (clock 0) c codes s), refl)
loop-spins h clock codes (suc (suc fuel)) c s =
    let (later, reached, gas) = loop-spins h clock codes fuel c s in
    (
      later,
      ground (
        arith,
        round-caller h (clock (suc fuel)) c codes s,
        round-jmp h (clock fuel) c codes s,
        reached,
      ),
      gas,
    )

-- Gas does not bound a run: the code CALLER, JMP, called from an address shorter than 32 bytes with
-- any gas left, has not returned after any number of rounds, and has used no gas.
pub execute-spins :
    (h : VmHeader) (clock : ℕ → ℕ) (fuel : ℕ) (c : ExecutionContext)
    → HasDistinctCodes h
    → c.gas_used < c.gas_limit
    → c.gas_limit < u64_mod
    → length c.caller_address < 32
    → (later : ExecutionContext) × (execute h clock (spinning h) fuel c ≡ continues later)
      × (later.gas_used ≡ c.gas_used)
unfolding execute
execute-spins h clock fuel c codes gas words caller =
    loop-spins h clock codes fuel (record c { program_counter = 0; halted = false })
      (record { start = refl; live = refl; gas = gas; words = words; caller = caller })
