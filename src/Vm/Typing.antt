-- ===== src/Vm/Typing.antt =====
-- The words of the stack and the bounds of the memory, for each step of src/vm/mermai_vm.cpp.
pub mod Run
use mermai_blockchain.Base.{
  ℕ, zero, suc, ◌+◌, ◌-◌, ◌*◌, ◌/◌, ◌%◌, ◌≤◌, ◌<◌, ◌≡◌, ◌≢◌, refl, sym, ap, subst, ◌∙◌, Bool, true,
  false, ◌&&◌, not, Option, none, some, List, [], ◌∷◌, ◌++◌, arith, ltb, leb, length, get_elem?,
  take, drop, replicate, length-append, length-drop, length-replicate, All, Bool-cases,
  Option-cases, inl, inr, if◌then◌else◌,
}
use mermai_blockchain.Base.Words.{add64}
use mermai_blockchain.Base.Key.{Bytes, nat_key, bytes_key, ◌==◌, bytes_less}
use mermai_blockchain.Base.Map.{find_or, insert, find_or-insert}
use mermai_blockchain.Wire.{write_value, write_u64}
use mermai_blockchain.Wire.Values.{length-write_value}
use mermai_blockchain.Vm.{
  Opcode, op_push0, op_push1, op_push32, op_pop, op_add, op_mul, op_sub, op_div, op_mod, op_dup1,
  op_swap1, op_lt, op_gt, op_eq, op_mload, op_mstore, op_sload, op_sstore, op_jmp, op_jmpi,
  op_caller, op_callvalue, op_timestamp, op_gaslimit, op_return, op_revert, op_stop, VmHeader,
  ExecutionContext, Outcome, continues, returns, crashes, memory_out_of_bounds, RevertReason,
  invalid_jump_target, throws, stack_underflow, contract_reverted, unknown_opcode, out_of_gas,
}
use mermai_blockchain.Vm.Words.{
  zero_word, add_word, sub_word, mul_word, low_u64, u64_word, is_zero, bool_word, last_byte,
}
use mermai_blockchain.Vm.Words.Value.{IsByte, IsWord, add_word-IsWord, sub_word-IsWord}
use mermai_blockchain.Vm.Words.Shapes.{
  All-append, All-take, All-drop, length-take, append-IsWord, padded-IsWord, zero_word-IsWord,
  u64_word-IsWord, bool_word-IsWord, mul_word-IsWord, last_byte-lt, All-replicate_zero,
}
use mermai_blockchain.Vm.Step.{
  push_word, pop_one, pop_two, push_code, divide, jump, load_word_from_memory, store_word_to_memory,
  storage_word, caller_word, perform, dispatch, check_gas, round, loop, execute,
}
use mermai_blockchain.Vm.Typed.{
  storage_word-IsWord, caller_word-IsWord, IsTyped, LeavesTyped, restacked, stopped,
}

pub push_word-LeavesTyped :
    (w : Bytes) (gas : ℕ) (c : ExecutionContext)
    → IsWord w
    → IsTyped c
    → LeavesTyped (push_word w gas c)
unfolding push_word
push_word-LeavesTyped w gas c h t = restacked c _ t (h, t.words) refl refl refl refl

pub pop_one-LeavesTyped :
    (c : ExecutionContext) (next : Bytes → ExecutionContext → Outcome)
    → IsTyped c
    → ((top : Bytes) (s : ExecutionContext) → IsWord top → IsTyped s → LeavesTyped (next top s))
    → LeavesTyped (pop_one c next)
unfolding pop_one
pop_one-LeavesTyped c next t h =
    elim c.stack
        as (λ stack.
          All IsWord stack
          → LeavesTyped (elim stack as (λ _. Outcome) [
            | [] ↦ returns c false
            | top ∷ below ↦ next top (record c { stack = below })
          ])) [
            | [] ↦ λ w. t
            | top ∷ below ↦ λ w. h top _ w.0 (restacked c _ t w.1 refl refl refl refl)
          ]
      t.words

pub pop_two-LeavesTyped :
    (c : ExecutionContext) (next : Bytes → Bytes → ExecutionContext → Outcome)
    → IsTyped c
    → ((top second : Bytes) (s : ExecutionContext)
        → IsWord top
        → IsWord second
        → IsTyped s
        → LeavesTyped (next top second s))
    → LeavesTyped (pop_two c next)
unfolding pop_two
pop_two-LeavesTyped c next t h = two_of c.stack t.words
  where
    two_of :
        (stack : List Bytes)
        → All IsWord stack
        → LeavesTyped (elim stack as (λ _. Outcome) [
          | [] ↦ returns c false
          | top ∷ rest ↦ (elim rest as (λ _. Outcome) [
            | [] ↦ returns c false
            | second ∷ below ↦ next top second (record c { stack = below })
          ])
        ])
    two_of [] w = t
    two_of (top ∷ []) w = t
    two_of (top ∷ second ∷ below) w =
        h top second _ w.0 w.1.0 (restacked c _ t w.1.1 refl refl refl refl)

pub push_code-LeavesTyped :
    (code : Bytes) (size gas : ℕ) (c : ExecutionContext)
    → size ≤ 32
    → All IsByte code
    → IsTyped c
    → LeavesTyped (push_code code size gas c)
unfolding push_code
push_code-LeavesTyped code size gas c small b t =
    let bytes = take size (drop c.program_counter code) in
    elim (Bool-cases (ltb (length code) (c.program_counter + size))) [
      | inl short ↦ rw (short, push_code) t
      | inr enough ↦
          rw (enough, push_code)
            (push_word-LeavesTyped (replicate (32 - size) 0 ++ bytes) gas _
              (padded-IsWord (32 - size) bytes
                (ground (
                  arith,
                  length-take size (drop c.program_counter code),
                  length-drop c.program_counter code,
                ))
                (All-take size _ (All-drop c.program_counter code b)))
              (restacked c _ t t.words refl refl refl refl))
    ]

pub divide-LeavesTyped :
    (operation : ℕ → ℕ → ℕ) (gas : ℕ) (b a : Bytes) (c : ExecutionContext)
    → IsTyped c
    → LeavesTyped (divide operation gas b a c)
unfolding divide
divide-LeavesTyped operation gas b a c t = elim (Bool-cases (is_zero b)) [
  | inl zeros ↦ rw (zeros, divide) (push_word-LeavesTyped zero_word gas c zero_word-IsWord t)
  | inr some_one ↦ (elim (Bool-cases (low_u64 b == 0)) [
    | inl low ↦ rw (some_one, low, divide) tt
    | inr high ↦ rw (some_one, high, divide) (push_word-LeavesTyped _ gas c (u64_word-IsWord _) t)
  ])
]

pub jump-LeavesTyped :
    (code : Bytes) (target : ℕ) (c : ExecutionContext)
    → IsTyped c
    → LeavesTyped (jump code target c)
unfolding jump
jump-LeavesTyped code target c t = elim (Bool-cases (leb (length code) target)) [
  | inl outside ↦
      rw (outside, jump) (stopped invalid_jump_target _ c t (λ e. cc) refl refl refl refl refl)
  | inr inside ↦ rw (inside, jump) (restacked c _ t t.words refl refl refl refl)
]

-- The last byte of a word is below 256, so 32 bytes from there lie within the memory.
pub load-LeavesTyped :
    (offset : ℕ) (c : ExecutionContext)
    → offset < 256
    → IsTyped c
    → LeavesTyped (load_word_from_memory offset c)
unfolding load_word_from_memory
load-LeavesTyped offset c small t =
    let room : ltb (length c.memory) (offset + 32) ≡ false = ground (arith, t.size) in
    rw (room, load_word_from_memory)
      (push_word-LeavesTyped (take 32 (drop offset c.memory)) 0 c
        (record {
          size =
              omega
                (arith, length-take 32 (drop offset c.memory), length-drop offset c.memory, t.size);
          bytes = All-take 32 _ (All-drop offset c.memory t.cells);
        })
        t)

pub store-LeavesTyped :
    (offset : ℕ) (word : Bytes) (c : ExecutionContext)
    → offset < 256
    → IsWord word
    → IsTyped c
    → LeavesTyped (store_word_to_memory offset word c)
unfolding store_word_to_memory
store-LeavesTyped offset word c small w t =
    let room : ltb (length c.memory) (offset + 32) ≡ false = ground (arith, t.size) in
    let after = drop (offset + 32) c.memory in
    rw (room, store_word_to_memory)
      (record {
        words = t.words;
        size = omega (
          arith,
          length-append (take offset c.memory) (word ++ after),
          length-append word after,
          length-take offset c.memory,
          length-drop (offset + 32) c.memory,
          w.size,
          t.size,
        );
        cells =
            All-append (take offset c.memory) (word ++ after) (All-take offset c.memory t.cells)
              (All-append word after w.bytes (All-drop (offset + 32) c.memory t.cells));
        stored = t.stored;
        caller = t.caller;
        in_bounds = t.in_bounds;
      })
