-- ===== src/Vm/Typing/Run.antt =====
-- Each round of a run keeps the state typed.
use mermai_blockchain.Base.{
  ℕ, zero, suc, ◌+◌, ◌-◌, ◌/◌, ◌%◌, refl, true, false, ◌&&◌, not, List, [], ◌∷◌, arith, get_elem?,
  All, Bool-cases, Option-cases, inl, inr, if◌then◌else◌,
}
use mermai_blockchain.Base.Words.{add64}
use mermai_blockchain.Base.Key.{Bytes, nat_key, bytes_key, ◌==◌, bytes_less}
use mermai_blockchain.Base.Map.{find_or, insert, find_or-insert}
use mermai_blockchain.Vm.{
  Opcode, op_push0, op_push1, op_push32, op_pop, op_add, op_mul, op_sub, op_div, op_mod, op_dup1,
  op_swap1, op_lt, op_gt, op_eq, op_mload, op_mstore, op_sload, op_sstore, op_jmp, op_jmpi,
  op_caller, op_callvalue, op_timestamp, op_gaslimit, op_return, op_revert, op_stop, VmHeader,
  ExecutionContext, Outcome, continues, returns, crashes, throws, stack_underflow,
  contract_reverted, unknown_opcode, out_of_gas,
}
use mermai_blockchain.Vm.Words.{
  zero_word, add_word, sub_word, mul_word, u64_word, is_zero, bool_word, last_byte,
}
use mermai_blockchain.Vm.Words.Value.{IsByte, IsWord, add_word-IsWord, sub_word-IsWord}
use mermai_blockchain.Vm.Words.Shapes.{
  zero_word-IsWord, u64_word-IsWord, bool_word-IsWord, mul_word-IsWord, last_byte-lt,
}
use mermai_blockchain.Vm.Step.{
  push_word, divide, jump, load_word_from_memory, store_word_to_memory, storage_word, caller_word,
  perform, dispatch, check_gas, round, loop, execute,
}
use mermai_blockchain.Vm.Typing.{
  push_word-LeavesTyped, pop_one-LeavesTyped, pop_two-LeavesTyped, push_code-LeavesTyped,
  divide-LeavesTyped, jump-LeavesTyped, load-LeavesTyped, store-LeavesTyped,
}
use mermai_blockchain.Vm.Typed.{
  IsTyped, LeavesTyped, restacked, stopped, storage_word-IsWord, caller_word-IsWord,
}

stored-IsTyped :
    (key value : Bytes) (gas : ℕ) (c : ExecutionContext)
    → IsWord value
    → IsTyped c
    → IsTyped (record c { storage = insert key value c.storage; gas_used = gas })
stored-IsTyped key value gas c w t = record {
  words = t.words;
  size = t.size;
  cells = t.cells;
  stored = λ k. elim (Bool-cases (k == key)) [
    | inl same ↦ rw (find_or-insert [] k key value c.storage, same) w.bytes
    | inr other ↦ rw (find_or-insert [] k key value c.storage, other) (t.stored k)
  ];
  caller = t.caller;
  in_bounds = t.in_bounds;
}

perform-LeavesTyped :
    (h : VmHeader) (now : ℕ) (code : Bytes) (op : Opcode) (c : ExecutionContext)
    → All IsByte code
    → IsTyped c
    → LeavesTyped (perform h now code op c)
unfolding perform
perform-LeavesTyped h now code op_push0 c b t =
    push_word-LeavesTyped zero_word h.gas_push c zero_word-IsWord t
perform-LeavesTyped h now code op_push1 c b t =
    push_code-LeavesTyped code 1 h.gas_push c (omega arith) b t
perform-LeavesTyped h now code op_push32 c b t =
    push_code-LeavesTyped code 32 h.gas_push c (omega arith) b t
perform-LeavesTyped h now code op_pop c b t =
    pop_one-LeavesTyped c (λ top s. continues s) t (λ top s w u. u)
perform-LeavesTyped h now code op_add c b t =
    pop_two-LeavesTyped c (λ b a s. push_word (add_word a b) h.gas_add s) t
      (λ y x s w v u. push_word-LeavesTyped (add_word x y) h.gas_add s (add_word-IsWord x y v w) u)
perform-LeavesTyped h now code op_mul c b t =
    pop_two-LeavesTyped c (λ b a s. push_word (mul_word a b) h.gas_mul s) t
      (λ y x s w v u. push_word-LeavesTyped (mul_word x y) h.gas_mul s (mul_word-IsWord x y) u)
perform-LeavesTyped h now code op_sub c b t =
    pop_two-LeavesTyped c (λ b a s. push_word (sub_word a b) h.gas_add s) t
      (λ y x s w v u. push_word-LeavesTyped (sub_word x y) h.gas_add s (sub_word-IsWord x y v w) u)
perform-LeavesTyped h now code op_div c b t =
    pop_two-LeavesTyped c (λ b a s. divide (λ x y. x / y) h.gas_add b a s) t
      (λ y x s w v u. divide-LeavesTyped (λ m n. m / n) h.gas_add y x s u)
perform-LeavesTyped h now code op_mod c b t =
    pop_two-LeavesTyped c (λ b a s. divide (λ x y. x % y) h.gas_add b a s) t
      (λ y x s w v u. divide-LeavesTyped (λ m n. m % n) h.gas_add y x s u)
perform-LeavesTyped h now code op_dup1 c b t = dup c.stack t.words
  where
    dup :
        (stack : List Bytes)
        → All IsWord stack
        → LeavesTyped (elim stack as (λ _. Outcome) [
          | [] ↦ throws stack_underflow c
          | top ∷ below ↦ push_word top 0 c
        ])
    dup [] w = stopped stack_underflow _ c t (λ e. cc) refl refl refl refl refl
    dup (top ∷ below) w = push_word-LeavesTyped top 0 c w.0 t
perform-LeavesTyped h now code op_swap1 c b t =
    pop_two-LeavesTyped c (λ b a s. continues (record s { stack = a ∷ b ∷ s.stack })) t
      (λ y x s w v u.
        restacked s (record s { stack = x ∷ y ∷ s.stack }) u (v, (w, u.words)) refl refl refl refl)
perform-LeavesTyped h now code op_lt c b t =
    pop_two-LeavesTyped c (λ b a s. push_word (bool_word (bytes_less a b)) 0 s) t
      (λ y x s w v u. push_word-LeavesTyped (bool_word (bytes_less x y)) 0 s (bool_word-IsWord _) u)
perform-LeavesTyped h now code op_gt c b t =
    pop_two-LeavesTyped c
      (λ b a s. push_word (bool_word (not (a == b) && not (bytes_less a b))) 0 s) t
      (λ y x s w v u.
        push_word-LeavesTyped (bool_word (not (x == y) && not (bytes_less x y))) 0 s
          (bool_word-IsWord _) u)
perform-LeavesTyped h now code op_eq c b t =
    pop_two-LeavesTyped c (λ b a s. push_word (bool_word (a == b)) 0 s) t
      (λ y x s w v u. push_word-LeavesTyped (bool_word (x == y)) 0 s (bool_word-IsWord _) u)
perform-LeavesTyped h now code op_mload c b t =
    pop_one-LeavesTyped c (λ offset s. load_word_from_memory (last_byte offset) s) t
      (λ offset s w u. load-LeavesTyped (last_byte offset) s (last_byte-lt offset w.bytes) u)
perform-LeavesTyped h now code op_mstore c b t =
    pop_two-LeavesTyped c (λ offset value s. store_word_to_memory (last_byte offset) value s) t
      (λ offset value s w v u.
        store-LeavesTyped (last_byte offset) value s (last_byte-lt offset w.bytes) v u)
perform-LeavesTyped h now code op_sload c b t =
    pop_one-LeavesTyped c
      (λ key s. push_word (storage_word (find_or [] key s.storage)) h.gas_sload s) t
      (λ key s w u.
        push_word-LeavesTyped (storage_word (find_or [] key s.storage)) h.gas_sload s
          (storage_word-IsWord (find_or [] key s.storage) (u.stored key)) u)
perform-LeavesTyped h now code op_sstore c b t =
    pop_two-LeavesTyped c
      (λ key value s. continues (record s {
        storage = insert key value s.storage;
        gas_used = add64 s.gas_used h.gas_sstore;
      }))
      t (λ key value s w v u. stored-IsTyped key value (add64 s.gas_used h.gas_sstore) s v u)
perform-LeavesTyped h now code op_jmp c b t =
    pop_one-LeavesTyped c (λ target s. jump code (last_byte target) s) t
      (λ target s w u. jump-LeavesTyped code (last_byte target) s u)
perform-LeavesTyped h now code op_jmpi c b t =
    pop_two-LeavesTyped c
      (λ target condition s.
        if is_zero condition then continues s else jump code (last_byte target) s)
      t
      (λ target condition s w v u.
        elim (is_zero condition)
          as (λ z. LeavesTyped (if z then continues s else jump code (last_byte target) s)) [
            | true ↦ u
            | false ↦ jump-LeavesTyped code (last_byte target) s u
          ])
perform-LeavesTyped h now code op_caller c b t =
    push_word-LeavesTyped (caller_word c.caller_address) 0 c
      (caller_word-IsWord c.caller_address t.caller) t
perform-LeavesTyped h now code op_callvalue c b t =
    push_word-LeavesTyped (u64_word c.call_value) 0 c (u64_word-IsWord _) t
perform-LeavesTyped h now code op_timestamp c b t =
    push_word-LeavesTyped (u64_word now) 0 c (u64_word-IsWord _) t
perform-LeavesTyped h now code op_gaslimit c b t =
    push_word-LeavesTyped (u64_word (c.gas_limit - c.gas_used)) 0 c (u64_word-IsWord _) t
perform-LeavesTyped h now code op_return c b t =
    restacked c (record c { halted = true }) t t.words refl refl refl refl
perform-LeavesTyped h now code op_revert c b t =
    stopped contract_reverted (record c { halted = true; revert_reason = contract_reverted }) c t
      (λ e. cc) refl refl refl refl refl
perform-LeavesTyped h now code op_stop c b t =
    restacked c (record c { halted = true }) t t.words refl refl refl refl

dispatch-LeavesTyped :
    (h : VmHeader) (now : ℕ) (code : Bytes) (byte : ℕ) (c : ExecutionContext)
    → All IsByte code
    → IsTyped c
    → LeavesTyped (dispatch h now code byte c)
unfolding dispatch
dispatch-LeavesTyped h now code byte c b t = elim (Option-cases (h.decode byte)) [
  | inl unknown ↦
      rw (unknown, dispatch) (stopped unknown_opcode _ c t (λ e. cc) refl refl refl refl refl)
  | inr (op, known) ↦ rw (known, dispatch) (perform-LeavesTyped h now code op c b t)
]

round-LeavesTyped :
    (h : VmHeader) (now : ℕ) (code : Bytes) (c : ExecutionContext)
    → All IsByte code
    → IsTyped c
    → LeavesTyped (round h now code c)
unfolding round
round-LeavesTyped h now code c b t = elim (Bool-cases c.halted) [
  | inl over ↦ rw over (restacked c _ t t.words refl refl refl refl)
  | inr live ↦ (elim (Option-cases (get_elem? code c.program_counter)) [
    | inl done ↦ rw (live, done) (restacked c _ t t.words refl refl refl refl)
    | inr (byte, read) ↦ (elim (Bool-cases (check_gas 1 c)) [
      | inr spent ↦
          rw (live, read, spent) (stopped out_of_gas _ c t (λ e. cc) refl refl refl refl refl)
      | inl enough ↦
          rw (live, read, enough)
            (dispatch-LeavesTyped h now code byte
              (record c { program_counter = c.program_counter + 1 }) b
              (restacked c _ t t.words refl refl refl refl))
    ])
  ])
]

loop-LeavesTyped :
    (h : VmHeader) (clock : ℕ → ℕ) (code : Bytes) (fuel : ℕ) (c : ExecutionContext)
    → All IsByte code
    → IsTyped c
    → LeavesTyped (loop h clock code fuel c)
unfolding loop
loop-LeavesTyped h clock code zero c b t = t
loop-LeavesTyped h clock code (suc fuel) c b t =
    rest (λ next s. loop-LeavesTyped h clock code fuel next b s) (round h (clock fuel) code c)
      (round-LeavesTyped h (clock fuel) code c b t)
  where
    rest :
        ((next : ExecutionContext) → IsTyped next → LeavesTyped (loop h clock code fuel next))
        → (o : Outcome) → LeavesTyped o
        → LeavesTyped (elim o as (λ _. Outcome) [
          | continues next ↦ loop h clock code fuel next
          | returns final result ↦ returns final result
          | crashes ↦ crashes
        ])
    rest later (continues next) s = later next s
    rest later (returns final result) s = s
    rest later crashes s = tt

-- Whatever bytes the code has, every state that a run reaches from a typed one is typed: all words
-- on the stack have 32 bytes, the memory keeps its 65536, and no access to it was out of bounds.
pub execute-LeavesTyped :
    (h : VmHeader) (clock : ℕ → ℕ) (code : Bytes) (fuel : ℕ) (c : ExecutionContext)
    → All IsByte code
    → IsTyped c
    → LeavesTyped (execute h clock code fuel c)
unfolding execute
execute-LeavesTyped h clock code fuel c b t =
    loop-LeavesTyped h clock code fuel (record c { program_counter = 0; halted = false }) b
      (restacked c _ t t.words refl refl refl refl)
