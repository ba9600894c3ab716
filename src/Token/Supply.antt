-- ===== src/Token/Supply.antt =====
-- The supply of the token: the balances add up to `total_supply`.
use mermai_blockchain.Base.{ℕ, ◌+◌, ◌%◌, ◌≤◌, ◌<◌, ◌≡◌, refl, ap, All, List, [], ◌∷◌, arith, ◌≢◌}
use mermai_blockchain.Base.Words.{u64_mod, IsU64, add64, sub64}
use mermai_blockchain.Base.Key.{Bytes, bytes_key, bytes_beq_iff}
use mermai_blockchain.Base.Map.{
  Map, find_or, insert, touch, sum_by, find, sum_by-insert, sum_by-touch, find_or-le-sum_by,
  find_or-insert,
}
use mermai_blockchain.Token.{
  TokenContract, new_token, move_balance, Call, transfers, approves, transfers_from, mints, burns,
  apply, run,
}

abbrev id : ℕ → ℕ
id n = n

-- The sum of all balances.
abbrev pub held : Map Bytes ℕ → ℕ
held = sum_by id

held-insert :
    (k : Bytes) (v : ℕ) (m : Map Bytes ℕ) → held (insert k v m) + find_or 0 k m ≡ held m + v
held-insert k v m = sum_by-insert id 0 k v m refl

pub held-touch : (k : Bytes) (m : Map Bytes ℕ) → held (touch 0 k m) ≡ held m
held-touch k m = sum_by-touch id 0 k m refl

pub balance-le-held : (k : Bytes) (m : Map Bytes ℕ) → find_or 0 k m ≤ held m
balance-le-held k m = find_or-le-sum_by id 0 k m refl

-- Two accounts together hold no more than all accounts do.
pub balances-le-held :
    (j k : Bytes) (m : Map Bytes ℕ) → j ≢ k → find_or 0 j m + find_or 0 k m ≤ held m
balances-le-held j k m ne = ground (
  arith,
  held-insert j 0 m,
  balance-le-held k (insert j 0 m),
  find_or-insert 0 k j 0 m,
  bytes_beq_iff k j,
)

-- Moving a covered amount keeps the sum, from an account to itself too.
held-move :
    (from to : Bytes) (amount : ℕ) (m : Map Bytes ℕ)
    → amount ≤ find_or 0 from m
    → IsU64 (held m)
    → held (move_balance from to amount m) ≡ held m
unfolding move_balance
held-move from to amount m covered small =
    let debited = insert from (sub64 (find_or 0 from m) amount) m in
    omega (
      arith,
      balance-le-held from m,
      balance-le-held to debited,
      held-insert from (sub64 (find_or 0 from m) amount) m,
      held-insert to (add64 (find_or 0 to debited) amount) debited,
    )

held-empty : (k : Bytes) → held [] + find_or 0 k [] ≡ 0
unfolding sum_by find_or find
held-empty k = refl

abbrev pub amount_of : Call → ℕ
amount_of (transfers caller to amount) = amount
amount_of (approves caller spender amount) = amount
amount_of (transfers_from spender from to amount) = amount
amount_of (mints caller to amount) = amount
amount_of (burns caller amount) = amount

-- The sum of the balances is the total supply.
abbrev pub IsBacked : TokenContract → Type 0
IsBacked t = held t.balances ≡ t.total_supply

-- The sum of the balances and the total supply agree as 64-bit words.
abbrev pub IsCongruent : TokenContract → Type 0
IsCongruent t = held t.balances % u64_mod ≡ t.total_supply % u64_mod

move-IsCongruent :
    (from to : Bytes) (amount : ℕ) (m : Map Bytes ℕ)
    → amount ≤ find_or 0 from m
    → held (move_balance from to amount m) % u64_mod ≡ held m % u64_mod
unfolding move_balance
move-IsCongruent from to amount m covered =
    let debited = insert from (sub64 (find_or 0 from m) amount) m in
    omega (
      arith,
      held-insert from (sub64 (find_or 0 from m) amount) m,
      held-insert to (add64 (find_or 0 to debited) amount) debited,
    )

apply-IsCongruent :
    (t : TokenContract) (c : Call) → IsU64 (amount_of c) → IsCongruent t → IsCongruent (apply t c).0
unfolding apply
apply-IsCongruent t (transfers caller to amount) w h = ground (
  arith,
  held-touch caller t.balances,
  move-IsCongruent caller to amount (touch 0 caller t.balances),
)
apply-IsCongruent t (approves caller spender amount) w h = ground arith
apply-IsCongruent t (transfers_from spender from to amount) w h =
    ground
      (arith, held-touch from t.balances, move-IsCongruent from to amount (touch 0 from t.balances))
apply-IsCongruent t (mints caller to amount) w h =
    ground (arith, held-insert to (add64 (find_or 0 to t.balances) amount) t.balances)
apply-IsCongruent t (burns caller amount) w h =
    let read = touch 0 caller t.balances in
    ground (
      arith,
      held-touch caller t.balances,
      held-insert caller (sub64 (find_or 0 caller read) amount) read,
    )

run-IsCongruent :
    (t : TokenContract) (cs : List Call)
    → All (λ c. IsU64 (amount_of c)) cs
    → IsCongruent t
    → IsCongruent (run t cs)
unfolding run
run-IsCongruent t [] w h = h
run-IsCongruent t (c ∷ cs) w h = run-IsCongruent (apply t c).0 cs w.1 (apply-IsCongruent t c w.0 h)

held-singleton : (owner : Bytes) (n : ℕ) → held (insert owner n []) ≡ n
held-singleton owner n = omega (arith, held-insert owner n [], held-empty owner)

new_token-IsBacked :
    (name symbol : Bytes) (decimals supply : ℕ) (owner : Bytes)
    → owner ≢ []
    → IsBacked (new_token name symbol decimals supply owner)
unfolding new_token sum_by
new_token-IsBacked name symbol decimals supply [] h = absurd (h refl)
new_token-IsBacked name symbol decimals supply (b ∷ bs) h =
    ground (arith, held-singleton (b ∷ bs) supply)

-- After any calls with 64-bit amounts on a token that was deployed for a named owner, the sum of
-- all balances and the total supply are equal as 64-bit words, whether or not a mint wrapped.
pub run-new_token-IsCongruent :
    (name symbol : Bytes) (decimals supply : ℕ) (owner : Bytes) (cs : List Call)
    → owner ≢ []
    → All (λ c. IsU64 (amount_of c)) cs
    → IsCongruent (run (new_token name symbol decimals supply owner) cs)
run-new_token-IsCongruent name symbol decimals supply owner cs named w =
    run-IsCongruent (new_token name symbol decimals supply owner) cs w
      (ap (λ (n : ℕ). n % u64_mod) (new_token-IsBacked name symbol decimals supply owner named))

-- A mint whose amount still fits below the 64-bit limit; any other call.
abbrev pub Fits : TokenContract → Call → Type 0
Fits t (mints caller to amount) = t.total_supply + amount < u64_mod
Fits t _ = Unit

-- While no mint takes the total supply past 64 bits, every call, refused or carried out, keeps
-- the sum of the balances equal to the total supply, and the total supply within 64 bits.
apply-IsBacked :
    (t : TokenContract) (c : Call)
    → IsU64 t.total_supply
    → Fits t c
    → IsBacked t
    → IsBacked (apply t c).0 × IsU64 (apply t c).0.total_supply
unfolding apply
apply-IsBacked t (transfers caller to amount) small fits h =
    ground
      (arith, held-touch caller t.balances, held-move caller to amount (touch 0 caller t.balances))
apply-IsBacked t (approves caller spender amount) small fits h = ground arith
apply-IsBacked t (transfers_from spender from to amount) small fits h =
    ground (arith, held-touch from t.balances, held-move from to amount (touch 0 from t.balances))
apply-IsBacked t (mints caller to amount) small fits h = ground (
  arith,
  balance-le-held to t.balances,
  held-insert to (add64 (find_or 0 to t.balances) amount) t.balances,
)
apply-IsBacked t (burns caller amount) small fits h =
    let read = touch 0 caller t.balances in
    ground (
      arith,
      held-touch caller t.balances,
      balance-le-held caller read,
      held-insert caller (sub64 (find_or 0 caller read) amount) read,
    )
