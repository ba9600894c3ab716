-- ===== src/Token/Transfers.antt =====
-- What a transfer does to the balances, and that a refused call changes nothing that is visible.
use mermai_blockchain.Base.{
  ℕ, ◌+◌, ◌-◌, ◌≤◌, ◌≡◌, refl, ◌≢◌, true, false, [], ◌∷◌, arith, if◌then◌else◌,
}
use mermai_blockchain.Base.Words.{IsU64, add64, sub64}
use mermai_blockchain.Base.Key.{Bytes, bytes_key, bytes_beq_iff, ◌==◌}
use mermai_blockchain.Base.Map.{Map, find, find_or, insert, touch, find_or-touch, find_or-insert}
use mermai_blockchain.Token.{
  TokenContract, balance_of, allowance, move_balance, transfer, transfer_from, burn, Call,
  transfers, approves, transfers_from, mints, burns, apply, set_allowance, touch_allowance,
}
use mermai_blockchain.Token.Supply.{held, balances-le-held, balance-le-held, held-touch, IsBacked}

-- `balances` at any account, after a covered move between two accounts.
find_or-move :
    (j from to : Bytes) (amount : ℕ) (m : Map Bytes ℕ)
    → from ≢ to
    → amount ≤ find_or 0 from m
    → IsU64 (held m)
    → find_or 0 j (move_balance from to amount m) ≡ (
        if j == from
        then find_or 0 from m - amount
        else if j == to
        then find_or 0 to m + amount
        else find_or 0 j m)
unfolding move_balance
find_or-move j from to amount m ne covered small =
    let debited = insert from (sub64 (find_or 0 from m) amount) m in
    ground (
      arith,
      find_or-insert 0 j to (add64 (find_or 0 to debited) amount) debited,
      find_or-insert 0 j from (sub64 (find_or 0 from m) amount) m,
      find_or-insert 0 to from (sub64 (find_or 0 from m) amount) m,
      bytes_beq_iff j from,
      bytes_beq_iff j to,
      bytes_beq_iff to from,
      balances-le-held from to m ne,
    )

-- Let the balances add up to the total supply. Then a transfer between two different named
-- accounts, of no more than the sender holds, succeeds; it takes the amount from the sender, adds
-- it to the recipient, and leaves every other account and every allowance alone.
pub transfer_moves :
    (t : TokenContract) (caller to : Bytes) (amount : ℕ) (j : Bytes)
    → caller ≢ []
    → to ≢ []
    → caller ≢ to
    → amount ≤ balance_of t caller
    → IsBacked t
    → IsU64 t.total_supply
    → ((transfer t caller to amount).1 ≡ true)
      × (balance_of (transfer t caller to amount).0 j ≡ (
          if j == caller
          then balance_of t caller - amount
          else if j == to
          then balance_of t to + amount
          else balance_of t j))
      × ((transfer t caller to amount).0.allowances ≡ t.allowances)
      × ((transfer t caller to amount).0.total_supply ≡ t.total_supply)
unfolding transfer balance_of
transfer_moves t [] to amount j c_named to_named ne covered backed small = absurd (c_named refl)
transfer_moves t (c ∷ cs) [] amount j c_named to_named ne covered backed small =
    absurd (to_named refl)
transfer_moves t (c ∷ cs) (d ∷ ds) amount j c_named to_named ne covered backed small =
    let read = touch 0 (c ∷ cs) t.balances in
    ground (
      arith,
      held-touch (c ∷ cs) t.balances,
      find_or-touch 0 (c ∷ cs) (c ∷ cs) t.balances,
      find_or-touch 0 (d ∷ ds) (c ∷ cs) t.balances,
      find_or-touch 0 j (c ∷ cs) t.balances,
      find_or-move j (c ∷ cs) (d ∷ ds) amount read ne,
    )

-- A transfer to oneself leaves every balance as it was.
transfer_to_self :
    (t : TokenContract) (caller : Bytes) (amount : ℕ) (j : Bytes)
    → IsBacked t
    → IsU64 t.total_supply
    → balance_of (transfer t caller caller amount).0 j ≡ balance_of t j
unfolding transfer balance_of move_balance
transfer_to_self t caller amount j backed small =
    let read = touch 0 caller t.balances in
    let debited = insert caller (sub64 (find_or 0 caller read) amount) read in
    ground (
      arith,
      balance-le-held caller t.balances,
      find_or-touch 0 caller caller t.balances,
      find_or-touch 0 j caller t.balances,
      find_or-insert 0 j caller (add64 (find_or 0 caller debited) amount) debited,
      find_or-insert 0 j caller (sub64 (find_or 0 caller read) amount) read,
      find_or-insert 0 caller caller (sub64 (find_or 0 caller read) amount) read,
      bytes_beq_iff j caller,
      bytes_beq_iff caller caller,
    )

-- The allowance that stands in the nested map.
abbrev pub granted : Map Bytes (Map Bytes ℕ) → Bytes → Bytes → ℕ
granted allowances owner spender = find_or 0 spender (find_or [] owner allowances)

pub allowance-eq-granted :
    (t : TokenContract) (o s : Bytes) → allowance t o s ≡ granted t.allowances o s
unfolding allowance find_or find
allowance-eq-granted t o s = ground arith

pub granted-set :
    (o s owner spender : Bytes) (amount : ℕ) (m : Map Bytes (Map Bytes ℕ))
    → granted (set_allowance owner spender amount m) o s
      ≡ (if o == owner then (if s == spender then amount else granted m o s) else granted m o s)
unfolding set_allowance
granted-set o s owner spender amount m =
    let inner = find_or [] owner m in
    ground (
      arith,
      find_or-insert [] o owner (insert spender amount inner) m,
      find_or-insert 0 s spender amount inner,
      bytes_beq_iff o owner,
    )

pub granted-touch :
    (o s owner spender : Bytes) (m : Map Bytes (Map Bytes ℕ))
    → granted (touch_allowance owner spender m) o s ≡ granted m o s
unfolding touch_allowance
granted-touch o s owner spender m =
    let inner = find_or [] owner m in
    ground (
      arith,
      find_or-insert [] o owner (touch 0 spender inner) m,
      find_or-touch 0 s spender inner,
      bytes_beq_iff o owner,
    )

-- A call that returns false leaves each balance, each allowance, the total supply, the owner and
-- the event log as they were.
apply_refused :
    (t : TokenContract) (c : Call) (j o s : Bytes)
    → (apply t c).1 ≡ false
    → (balance_of (apply t c).0 j ≡ balance_of t j)
      × (allowance (apply t c).0 o s ≡ allowance t o s)
      × ((apply t c).0.total_supply ≡ t.total_supply)
      × ((apply t c).0.owner ≡ t.owner)
      × ((apply t c).0.event_logs ≡ t.event_logs)
unfolding apply balance_of
apply_refused t (transfers caller to amount) j o s h = ground (
  arith,
  allowance-eq-granted t o s,
  allowance-eq-granted (transfer t caller to amount).0 o s,
  find_or-touch 0 j caller t.balances,
)
apply_refused t (approves caller spender amount) j o s h = ground arith
apply_refused t (transfers_from spender from to amount) j o s h = ground (
  arith,
  allowance-eq-granted t o s,
  allowance-eq-granted (transfer_from t spender from to amount).0 o s,
  granted-touch o s from spender t.allowances,
  find_or-touch 0 j from t.balances,
)
apply_refused t (mints caller to amount) j o s h = ground arith
apply_refused t (burns caller amount) j o s h = ground (
  arith,
  allowance-eq-granted t o s,
  allowance-eq-granted (burn t caller amount).0 o s,
  find_or-touch 0 j caller t.balances,
)
