-- ===== src/Merlite/Compile/Slots.antt =====
-- The body of a function: its loop ends, and leaves the slots of state variables as they are.
use mermai_blockchain.Base.{
  ℕ, zero, suc, ◌≤◌, ◌≡◌, refl, ◌&&◌, Option, none, some, List, [], ◌∷◌, arith, length, drop,
  length-drop, Bool-cases, inl, inr, ◌⊎◌,
}
use mermai_blockchain.Base.Key.{Bytes, bytes_key, nat_key}
use mermai_blockchain.Vm.{VmHeader}
use mermai_blockchain.Merlite.{
  token_semicolon, token_identifier, token_number, token_caller, token_assign, token_require,
  token_lbrace, token_rbrace, Token,
}
use mermai_blockchain.Merlite.Reader.{is_at, skip_if, skip_brackets, stoull, function_head}
use mermai_blockchain.Merlite.Compile.{
  Emission, Round, goes_on, throws, require_code, store_code, emit, assign, statement, body_round,
  compile_body, function_name, compile_function,
}
use mermai_blockchain.Merlite.Compile.Lengths.{length-skip_if, length-skip_brackets}
use mermai_blockchain.Merlite.Compile.Fits.{Fits, Fine, if-Fine, shorter-Fits}

module _ (header : VmHeader) (size : ℕ) where
  assign-Fine :
      (target : Bytes) (tokens : List Token) (e : Emission)
      → Fits size tokens e
      → Fine size (length tokens) (assign header target tokens e)
  unfolding assign store_code emit
  assign-Fine target [] e w = (shorter-Fits size [] [] e _ w (omega arith) refl refl, omega arith)
  assign-Fine target (t ∷ tokens) e w =
      let rest = skip_if token_semicolon tokens in
      let shorter = length-skip_if token_semicolon tokens in
      if-Fine size (length (t ∷ tokens)) (is_at token_number (t ∷ tokens)) _ _
        (number (stoull t.text))
        (if-Fine size (length (t ∷ tokens)) (is_at token_caller (t ∷ tokens)) _ _
          (
            shorter-Fits size (t ∷ tokens) rest e _ w (omega (arith, shorter)) refl refl,
            omega (arith, shorter),
          )
          (
            shorter-Fits size (t ∷ tokens) rest e _ w (omega (arith, shorter)) refl refl,
            omega (arith, shorter),
          ))
    where
      number :
          (value : Option ℕ)
          → Fine size (length (t ∷ tokens)) (elim value as (λ _. Round) [
            | none ↦ throws e
            | some val ↦
                goes_on (suc zero) (skip_if token_semicolon tokens) (store_code header target val e)
          ])
      number none = tt
      number (some val) = (
        shorter-Fits size (t ∷ tokens) (skip_if token_semicolon tokens) e _ w
            (omega (arith, length-skip_if token_semicolon tokens)) refl refl,
        omega (arith, length-skip_if token_semicolon tokens),
      )

  statement-Fine :
      (t : Token) (tokens : List Token) (e : Emission)
      → Fits size tokens e
      → Fine size (length tokens) (statement header t tokens e)
  unfolding statement require_code emit
  statement-Fine t tokens e w =
      let past = skip_brackets tokens in
      let rest = skip_if token_semicolon past in
      let shorter = length-skip_brackets tokens in
      let shortest = length-skip_if token_semicolon past in
      let dropped = length-drop 1 tokens in
      if-Fine size (length tokens) (is_at token_require (t ∷ tokens)) _ _
        (
          shorter-Fits size tokens rest e _ w (omega (arith, shorter, shortest)) refl refl,
          omega (arith, shorter, shortest),
        )
        (if-Fine size (length tokens)
          (is_at token_identifier (t ∷ tokens) && is_at token_assign tokens) _ _
          (looser (length (drop 1 tokens)) (length tokens) (assign header t.text (drop 1 tokens) e)
            (omega (arith, dropped))
            (assign-Fine t.text (drop 1 tokens) e
              (shorter-Fits size tokens (drop 1 tokens) e e w (omega (arith, dropped)) refl refl)))
          (w, omega arith))
    where
      looser : (small large : ℕ) (r : Round) → small ≤ large → Fine size small r → Fine size large r
      looser small large (throws e') h f = tt
      looser small large (goes_on zero tokens' e') h f = (f.0, omega (arith, h, f.1))
      looser small large (goes_on (suc depth) tokens' e') h f = (f.0, omega (arith, h, f.1))

  body_round-Fine :
      (below : ℕ) (t : Token) (tokens : List Token) (e : Emission)
      → Fits size (t ∷ tokens) e
      → Fine size (length tokens) (body_round header below t tokens e)
  unfolding body_round
  body_round-Fine below t tokens e w =
      let fewer = shorter-Fits size (t ∷ tokens) tokens e e w (omega arith) refl refl in
      if-Fine size (length tokens) (is_at token_lbrace (t ∷ tokens)) _ _ (fewer, omega arith)
        (if-Fine size (length tokens) (is_at token_rbrace (t ∷ tokens)) _ _ (closes below fewer)
          (goes below fewer))
    where
      closes :
          (depth : ℕ)
          → Fits size tokens e
          → Fine size (length tokens) (elim depth as (λ _. Round) [
            | zero ↦ goes_on zero (t ∷ tokens) e
            | suc left ↦ goes_on (suc left) tokens e
          ])
      closes zero f = (w, omega arith)
      closes (suc left) f = (f, omega arith)

      goes :
          (depth : ℕ)
          → Fits size tokens e
          → Fine size (length tokens) (elim depth as (λ _. Round) [
            | zero ↦ statement header t tokens e
            | suc left ↦ goes_on (suc (suc left)) tokens e
          ])
      goes zero f = statement-Fine t tokens e f
      goes (suc left) f = (f, omega arith)

  -- The outcome of a loop: it ends, and leaves at most `bound` tokens.
  abbrev pub Ended : ℕ → Round → Type 0
  Ended bound (throws e) = Unit
  Ended bound (goes_on depth tokens e) = Fits size tokens e × (length tokens ≤ bound)

  Ended-weaken : (small large : ℕ) (r : Round) → small ≤ large → Ended small r → Ended large r
  Ended-weaken small large (throws e) h f = tt
  Ended-weaken small large (goes_on depth tokens e) h f = (f.0, omega (arith, h, f.1))

  pub shorter-Ended :
      (small large : ℕ)
      → small ≤ large
      → (o : Option Round) → (r : Round) × (o ≡ some r) × Ended small r
      → (r : Round) × (o ≡ some r) × Ended large r
  shorter-Ended small large h o (r, made, f) = (r, made, Ended-weaken small large r h f)

  compile_body-Ended :
      (fuel depth : ℕ) (tokens : List Token) (e : Emission) (bound : ℕ)
      → Fits size tokens e
      → length tokens ≤ bound
      → (depth ≡ 0) ⊎ (length tokens ≤ fuel)
      → (r : Round) × (compile_body header fuel depth tokens e ≡ some r) × Ended bound r
  unfolding compile_body
  compile_body-Ended fuel depth [] e bound w h enough = (_, refl, (w, h))
  compile_body-Ended fuel zero (t ∷ tokens) e bound w h enough = (_, refl, (w, h))
  compile_body-Ended zero (suc depth) (t ∷ tokens) e bound w h enough =
      absurd (elim enough [ inl none_left ↦ omega arith | inr few ↦ omega arith ])
  compile_body-Ended (suc fuel) (suc depth) (t ∷ tokens) e bound w h enough =
      let few : length tokens ≤ fuel = elim enough [
        | inl none_left ↦ absurd (omega arith)
        | inr k ↦ omega arith
      ] in
      next few (λ d ts e' v k m. compile_body-Ended fuel d ts e' bound v k m)
        (body_round header depth t tokens e) (body_round-Fine depth t tokens e w)
    where
      next :
          length tokens ≤ fuel
          → ((d : ℕ) (ts : List Token) (e' : Emission)
              → Fits size ts e'
              → length ts ≤ bound
              → (d ≡ 0) ⊎ (length ts ≤ fuel)
              → (r : Round) × (compile_body header fuel d ts e' ≡ some r) × Ended bound r)
          → (r : Round) → Fine size (length tokens) r
          → (last : Round) × ((elim r as (λ _. Option Round) [
            | throws e' ↦ some (throws e')
            | goes_on d ts e' ↦ compile_body header fuel d ts e'
          ])
              ≡ some last)
            × Ended bound last
      next few later (throws e') f = (throws e', refl, tt)
      next few later (goes_on zero ts e') f =
          later zero ts e' f.0 (omega (arith, f.1, h)) (inl refl)
      next few later (goes_on (suc d) ts e') f =
          later (suc d) ts e' f.0 (omega (arith, f.1, h)) (inr (omega (arith, f.1)))

  function_name-Fits :
      (tokens : List Token) (e : Emission)
      → Fits size tokens e
      → Fits size (function_name tokens e).0 (function_name tokens e).1
        × (length (function_name tokens e).0 ≤ length tokens)
  unfolding function_name
  function_name-Fits [] e w = (w, omega arith)
  function_name-Fits (t ∷ tokens) e w = elim (Bool-cases (is_at token_identifier (t ∷ tokens))) [
    | inr other ↦ rw (other, function_name) (w, omega arith)
    | inl named ↦
        rw (named, function_name)
          (shorter-Fits size (t ∷ tokens) tokens e _ w (omega arith) refl refl, omega arith)
  ]

  length-function_head : (tokens : List Token) → length (function_head tokens) ≤ length tokens
  unfolding function_head
  length-function_head tokens = ground (
    arith,
    length-skip_brackets tokens,
    length-drop 2 (skip_brackets tokens),
    length-drop 2 tokens,
  )

  pub compile_function-Ended :
      (tokens : List Token) (e : Emission)
      → Fits size tokens e
      → (r : Round) × (compile_function header tokens e ≡ some r) × Ended (length tokens) r
  unfolding compile_function
  compile_function-Ended tokens e w =
      let named = function_name tokens e in
      let (v, k) = function_name-Fits tokens e w in
      let rest = function_head named.0 in
      let shorter = length-function_head named.0 in
      let fits = shorter-Fits size named.0 rest named.1 named.1 v shorter refl refl in
      elim (Bool-cases (is_at token_lbrace rest)) [
        | inr plain ↦ rw (plain, compile_function) (_, refl, (fits, omega (arith, k, shorter)))
        | inl braced ↦
            rw (braced, compile_function)
              (compile_body-Ended (length rest) 1 (drop 1 rest) named.1 (length tokens)
                (shorter-Fits size rest (drop 1 rest) named.1 named.1 fits
                  (omega (arith, length-drop 1 rest)) refl refl)
                (omega (arith, length-drop 1 rest, k, shorter))
                (inr (omega (arith, length-drop 1 rest))))
      ]
