-- ===== src/Merlite/Compile/Layout.antt =====
-- The compilation ends, and gives each state variable a slot of its own.
use mermai_blockchain.Base.{
  ℕ, zero, suc, ◌+◌, ◌≤◌, ◌<◌, ◌≡◌, refl, ◌||◌, Option, some, List, [], ◌∷◌, arith, length, drop,
  length-drop, leb, Bool-cases, inl, inr,
}
use mermai_blockchain.Base.Words.{u32_mod, add32}
use mermai_blockchain.Base.Key.{Bytes, bytes_key, nat_key}
use mermai_blockchain.Base.Map.{find}
use mermai_blockchain.Vm.{VmHeader}
use mermai_blockchain.Merlite.{
  token_semicolon, token_identifier, token_lbrace, token_rbrace, token_state, token_pub, token_fn,
  token_eof, Token,
}
use mermai_blockchain.Merlite.Lexer.{tokenize}
use mermai_blockchain.Merlite.Reader.{is_at, skip_if, state_type, contract_head}
use mermai_blockchain.Merlite.Compile.{
  Emission, declare, state_variable, Round, goes_on, throws, part, compile_parts, no_emission,
  CompilationResult, result_of, compile_tokens, compile,
}
use mermai_blockchain.Merlite.Compile.Lengths.{tokenize_from-ends, length-skip_if}
use mermai_blockchain.Merlite.Compile.Slots.{Ended, shorter-Ended, compile_function-Ended}
use mermai_blockchain.Merlite.Compile.Fits.{
  HasDistinctSlots, insert-HasDistinctSlots, Fits, shorter-Fits, length-state_type,
}

module _ (header : VmHeader) (size : ℕ) where
  declare-Fits :
      (tokens : List Token) (e : Emission)
      → size < u32_mod
      → HasDistinctSlots e.storage_map e.next_slot
      → e.next_slot + length tokens + 1 ≤ size
      → Fits size (declare tokens e).0 (declare tokens e).1
        × (length (declare tokens e).0 ≤ length tokens)
  unfolding declare
  declare-Fits [] e small w room = (record { slots = w; room = omega (arith, room) }, omega arith)
  declare-Fits (t ∷ tokens) e small w room =
      elim (Bool-cases (is_at token_identifier (t ∷ tokens))) [
        | inr other ↦
            rw (other, declare) (record { slots = w; room = omega (arith, room) }, omega arith)
        | inl named ↦
            let next : add32 e.next_slot 1 ≡ e.next_slot + 1 = omega (arith, room, small) in
            rw (named, declare)
              (
                record {
                  slots = rw next (insert-HasDistinctSlots t.text e.storage_map e.next_slot w);
                  room = omega (arith, room, next);
                },
                omega arith,
              )
      ]

  state_variable-Fits :
      (t : Token) (tokens : List Token) (e : Emission)
      → size < u32_mod
      → Fits size (t ∷ tokens) e
      → Fits size (state_variable tokens e).0 (state_variable tokens e).1
        × (length (state_variable tokens e).0 ≤ length tokens)
  unfolding state_variable
  state_variable-Fits t tokens e small w =
      let after = state_type tokens in
      let shorter = length-state_type tokens in
      let (v, k) = declare-Fits after e small w.slots (omega (arith, w.room, shorter)) in
      let left = declare after e in
      let shortest = length-skip_if token_semicolon left.0 in
      (
        shorter-Fits size left.0 (skip_if token_semicolon left.0) left.1 left.1 v shortest refl
            refl,
        omega (arith, shortest, k, shorter),
      )

  part-Ended :
      (t : Token) (tokens : List Token) (e : Emission)
      → size < u32_mod
      → Fits size (t ∷ tokens) e
      → (r : Round) × (part header t tokens e ≡ some r) × Ended header size (length tokens) r
  unfolding part
  part-Ended t tokens e small w =
      let fewer = shorter-Fits size (t ∷ tokens) tokens e e w (omega arith) refl refl in
      elim (Bool-cases (is_at token_state (t ∷ tokens))) [
        | inl state ↦ rw (state, part) (_, refl, state_variable-Fits t tokens e small w)
        | inr t0 ↦ (elim (Bool-cases (is_at token_pub (t ∷ tokens))) [
          | inl public ↦
              rw (t0, public, part)
                (shorter-Ended header size (length (drop 1 tokens)) (length tokens)
                  (omega (arith, length-drop 1 tokens)) _
                  (compile_function-Ended header size (drop 1 tokens) e (
                    shorter-Fits size tokens (drop 1 tokens) e e fewer
                      (omega (arith, length-drop 1 tokens)) refl refl)))
          | inr t1 ↦ (elim (Bool-cases (is_at token_fn (t ∷ tokens))) [
            | inl function ↦
                rw (t0, t1, function, part) (compile_function-Ended header size tokens e fewer)
            | inr t2 ↦ rw (t0, t1, t2, part) (_, refl, (fewer, omega arith))
          ])
        ])
      ]

  compile_parts-Ended :
      (fuel : ℕ) (tokens : List Token) (e : Emission)
      → size < u32_mod
      → Fits size tokens e
      → length tokens ≤ fuel
      → (r : Round) × (compile_parts header fuel tokens e ≡ some r)
        × Ended header size (length tokens) r
  unfolding compile_parts
  compile_parts-Ended fuel [] e small w enough = (_, refl, (w, omega arith))
  compile_parts-Ended zero (t ∷ tokens) e small w enough = absurd (omega arith)
  compile_parts-Ended (suc fuel) (t ∷ tokens) e small w enough =
      let (r, made, ended) = part-Ended t tokens e small w in
      elim (Bool-cases (is_at token_eof (t ∷ tokens) || is_at token_rbrace (t ∷ tokens))) [
        | inl over ↦ rw (over, compile_parts) (_, refl, (w, omega arith))
        | inr more ↦
            rw (more, made, compile_parts)
              (next r ended (λ ts e' v k. compile_parts-Ended fuel ts e' small v k))
      ]
    where
      next :
          (r : Round)
          → Ended header size (length tokens) r
          → ((ts : List Token) (e' : Emission)
              → Fits size ts e'
              → length ts ≤ fuel
              → (last : Round) × (compile_parts header fuel ts e' ≡ some last)
                × Ended header size (length ts) last)
          → (last : Round) × ((elim r as (λ _. Option Round) [
            | throws e' ↦ some (throws e')
            | goes_on d ts e' ↦ compile_parts header fuel ts e'
          ])
              ≡ some last)
            × Ended header size (length (t ∷ tokens)) last
      next (throws e') f later = (throws e', refl, tt)
      next (goes_on d ts e') f later =
          shorter-Ended header size (length ts) (length (t ∷ tokens)) (omega (arith, f.1)) _
            (later ts e' f.0 (omega (arith, f.1, enough)))

length-contract_head : (tokens : List Token) → length (contract_head tokens) ≤ length tokens
unfolding contract_head
length-contract_head tokens = ground (
  arith,
  length-skip_if token_lbrace (skip_if token_identifier (drop 1 tokens)),
  length-skip_if token_identifier (drop 1 tokens),
  length-drop 1 tokens,
)

-- The outcome of the compilation has distinct slots.
abbrev Lays : Option CompilationResult → Type 0
Lays o =
    (result : CompilationResult) × (o ≡ some result)
    × (next_slot : ℕ) × HasDistinctSlots result.storage_layout next_slot

empty-HasDistinctSlots : HasDistinctSlots [] 0
unfolding find
empty-HasDistinctSlots = record { below = λ name slot e. cc; distinct = λ name other slot e f. cc }

compile_tokens-Lays :
    (header : VmHeader) (tokens : List Token)
    → length tokens < u32_mod
    → Lays (compile_tokens header tokens)
unfolding compile_tokens
compile_tokens-Lays header tokens small =
    let start = contract_head tokens in
    let shorter = length-contract_head tokens in
    let (r, made, ended) =
      compile_parts-Ended header (length tokens) (length tokens) start no_emission small
        (record { slots = empty-HasDistinctSlots; room = omega (arith, shorter) }) shorter in
    elim (Bool-cases (leb (length tokens) 1)) [
      | inl lone ↦ rw (lone, compile_tokens) (_, refl, 0, empty-HasDistinctSlots)
      | inr several ↦ rw (several, made, compile_tokens) (laid r ended)
    ]
  where
    laid :
        (r : Round)
        → Ended header (length tokens) (length (contract_head tokens)) r
        → Lays (some (result_of header r))
    laid (throws e) f = (_, refl, 0, empty-HasDistinctSlots)
    laid (goes_on depth rest e) f = (_, refl, e.next_slot, f.0.slots)

-- The compiler ends on every source of fewer than 2^32 - 1 bytes, and each state variable that it
-- lays out has a slot that no other has.
pub compile-HasDistinctSlots :
    (header : VmHeader) (source : Bytes)
    → length source + 1 < u32_mod
    → (result : CompilationResult) × (compile header source ≡ some result)
      × (next_slot : ℕ) × HasDistinctSlots result.storage_layout next_slot
unfolding compile tokenize
compile-HasDistinctSlots header source small =
    let (tokens, scanned, short) = tokenize_from-ends (length source) source 1 1 (omega arith) in
    rw (scanned, compile, tokenize)
      (compile_tokens-Lays header tokens (omega (arith, short, small)))
