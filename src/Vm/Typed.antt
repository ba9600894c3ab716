-- ===== src/Vm/Typed.antt =====
-- What holds between the rounds of a run, and the changes that keep it.
use mermai_blockchain.Base.{
  ℕ, ◌-◌, ◌≡◌, ◌≢◌, sym, ap, subst, ◌∙◌, [], arith, length, take, drop, replicate, length-drop,
  length-replicate, All,
}
use mermai_blockchain.Base.Key.{Bytes, nat_key, bytes_key}
use mermai_blockchain.Base.Map.{find_or}
use mermai_blockchain.Vm.{
  ExecutionContext, Outcome, continues, returns, crashes, memory_out_of_bounds, RevertReason,
}
use mermai_blockchain.Vm.Words.Value.{IsByte, IsWord}
use mermai_blockchain.Vm.Words.Shapes.{
  All-take, All-drop, length-take, append-IsWord, padded-IsWord, All-replicate_zero,
}
use mermai_blockchain.Vm.Step.{storage_word, caller_word}

pub storage_word-IsWord : (v : Bytes) → All IsByte v → IsWord (storage_word v)
unfolding storage_word
storage_word-IsWord v h =
    padded-IsWord (32 - length v) (drop (length v - 32) v)
      (omega (arith, length-drop (length v - 32) v)) (All-drop (length v - 32) v h)

pub caller_word-IsWord : (a : Bytes) → All IsByte a → IsWord (caller_word a)
unfolding caller_word
caller_word-IsWord a h =
    append-IsWord (take 32 a) (replicate (32 - length a) 0)
      (omega (arith, length-take 32 a, length-replicate {A = ℕ} (32 - length a) 0))
      (All-take 32 a h) (All-replicate_zero (32 - length a))

-- What holds between the rounds of a run: the stack holds words, the memory has its size, and all
-- else that a word can be made of is bytes. No access to the memory was refused.
pub record IsTyped (c : ExecutionContext) : Type 0 where
  pub words : All IsWord c.stack
  pub size : length c.memory ≡ 65536
  pub cells : All IsByte c.memory
  pub stored : (key : Bytes) → All IsByte (find_or [] key c.storage)
  pub caller : All IsByte c.caller_address
  pub in_bounds : c.revert_reason ≢ memory_out_of_bounds

-- The state that an outcome leaves is typed.
abbrev pub LeavesTyped : Outcome → Type 0
LeavesTyped (continues c) = IsTyped c
LeavesTyped (returns c result) = IsTyped c
LeavesTyped crashes = Unit

-- A change of the stack, the program counter, the gas or the halted flag.
pub restacked :
    (c d : ExecutionContext)
    → IsTyped c
    → All IsWord d.stack
    → d.memory ≡ c.memory
    → d.storage ≡ c.storage
    → d.caller_address ≡ c.caller_address
    → d.revert_reason ≡ c.revert_reason
    → IsTyped d
restacked c d t w m s a r = record {
  words = w;
  size = ap (λ (cells : Bytes). length cells) m ∙ t.size;
  cells = subst (λ cells. All IsByte cells) (sym m) t.cells;
  stored = λ key. subst (λ storage. All IsByte (find_or [] key storage)) (sym s) (t.stored key);
  caller = subst (λ address. All IsByte address) (sym a) t.caller;
  in_bounds = λ e. t.in_bounds (sym r ∙ e);
}

-- The same with a reason of a revert that is not an access out of bounds.
pub stopped :
    (reason : RevertReason) (d c : ExecutionContext)
    → IsTyped c
    → reason ≢ memory_out_of_bounds
    → d.stack ≡ c.stack
    → d.memory ≡ c.memory
    → d.storage ≡ c.storage
    → d.caller_address ≡ c.caller_address
    → d.revert_reason ≡ reason
    → IsTyped d
stopped reason d c t n w m s a r = record {
  words = subst (λ stack. All IsWord stack) (sym w) t.words;
  size = ap (λ (cells : Bytes). length cells) m ∙ t.size;
  cells = subst (λ cells. All IsByte cells) (sym m) t.cells;
  stored = λ key. subst (λ storage. All IsByte (find_or [] key storage)) (sym s) (t.stored key);
  caller = subst (λ address. All IsByte address) (sym a) t.caller;
  in_bounds = λ e. n (sym r ∙ e);
}
