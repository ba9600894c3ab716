-- ===== src/Vm/Tests.antt =====
-- The machine on small programs.
use mermai_blockchain.Base.{
  ℕ, zero, suc, ◌+◌, ◌-◌, ◌%◌, ◌^◌, ◌≡◌, refl, false, List, [], ◌∷◌, arith,
}
use mermai_blockchain.Base.Key.{Bytes}
use mermai_blockchain.Vm.{ExecutionContext, Outcome, continues, returns, not_reverted}
use mermai_blockchain.Vm.Words.{add_word, sub_word, u64_word}
use mermai_blockchain.Wire.{write_value}
use mermai_blockchain.Base.{length-replicate}
use mermai_blockchain.Base.Map.{find_or, find}
use mermai_blockchain.Vm.Words.Shapes.{All-replicate_zero, u64_word-IsWord}
use mermai_blockchain.Vm.Words.Value.{value, IsWord, add_word_value}
use mermai_blockchain.Vm.Step.{execute, new_vm, round}
use mermai_blockchain.Vm.Halting.{execute-Halts, Halts, HasNoJumps}
use mermai_blockchain.Vm.Typed.{IsTyped, LeavesTyped}
use mermai_blockchain.Vm.Typing.Run.{execute-LeavesTyped}
use mermai_blockchain.Vm.Sample.{sample_header}

abbrev started : ExecutionContext
started = record {
  program_counter = 0;
  halted = false;
  gas_used = 0;
  gas_limit = 1000;
  revert_reason = not_reverted;
  stack = [];
  memory = [];
  storage = [];
  caller_address = 7 ∷ 8 ∷ [];
  call_value = 0;
}

-- PUSH1 200, PUSH1 100, ADD, STOP
abbrev sum_code : Bytes
sum_code = 1 ∷ 200 ∷ 1 ∷ 100 ∷ 4 ∷ 26 ∷ []

stack_of : Outcome → List Bytes
stack_of (continues c) = c.stack
stack_of (returns c result) = c.stack
stack_of _ = []

run-sum_code : stack_of (execute sample_header (λ _. 0) sum_code 7 started) ≡ u64_word 300 ∷ []
unfolding stack_of execute u64_word round add_word write_value
run-sum_code = refl

sum_code-HasNoJumps : HasNoJumps sample_header sum_code
sum_code-HasNoJumps zero byte op read known = ground arith
sum_code-HasNoJumps (suc zero) byte op read known = ground arith
sum_code-HasNoJumps (suc (suc zero)) byte op read known = ground arith
sum_code-HasNoJumps (suc (suc (suc zero))) byte op read known = ground arith
sum_code-HasNoJumps (suc (suc (suc (suc zero)))) byte op read known = ground arith
sum_code-HasNoJumps (suc (suc (suc (suc (suc zero))))) byte op read known = ground arith
sum_code-HasNoJumps (suc (suc (suc (suc (suc (suc pc)))))) byte op read known = cc

execute-Halts_example : Halts (execute sample_header (λ _. 0) sum_code 7 started)
execute-Halts_example = execute-Halts sample_header (λ _. 0) sum_code started sum_code-HasNoJumps

loaded-IsTyped : IsTyped (new_vm started)
unfolding new_vm find_or find
loaded-IsTyped = record {
  words = tt;
  size = length-replicate {A = ℕ} 65536 0;
  cells = All-replicate_zero 65536;
  stored = λ key. tt;
  caller = (omega arith, (omega arith, tt));
  in_bounds = λ e. cc;
}

execute-LeavesTyped_example :
    LeavesTyped (execute sample_header (λ _. 0) sum_code 7 (new_vm started))
execute-LeavesTyped_example =
    execute-LeavesTyped sample_header (λ _. 0) sum_code 7 (new_vm started)
      (omega arith, (omega arith, (omega arith, (omega arith, (omega arith, (omega arith, tt))))))
      loaded-IsTyped

add_word_value_example :
    (value (add_word (u64_word 200) (u64_word 300))
      ≡ (value (u64_word 200) + value (u64_word 300)) % 2 ^ 256)
    × (value (sub_word (u64_word 200) (u64_word 300))
        ≡ (value (u64_word 200) + 2 ^ 256 - value (u64_word 300)) % 2 ^ 256)
    × IsWord (add_word (u64_word 200) (u64_word 300))
    × IsWord (sub_word (u64_word 200) (u64_word 300))
add_word_value_example =
    add_word_value (u64_word 200) (u64_word 300) (u64_word-IsWord 200) (u64_word-IsWord 300)
