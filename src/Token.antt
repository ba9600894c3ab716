-- ===== src/Token.antt =====
-- The MRM-20 token contract: include/mermai/mermai_token.hpp and src/vm/mermai_token.cpp.
-- A method returns the contract after it and the method's result. Amounts are `uint64_t`.
pub mod Supply
pub mod Transfers
pub mod Allowances
mod Tests
use mermai_blockchain.Base.{
  ℕ, ◌+◌, ◌%◌, Bool, true, false, ◌||◌, List, [], ◌∷◌, ◌++◌, Option, none, some, ltb, is_empty,
  if◌then◌else◌,
}
use mermai_blockchain.Base.Words.{add64, sub64}
use mermai_blockchain.Base.Key.{Bytes, bytes_key, ◌==◌, ◌!=◌}
use mermai_blockchain.Base.Map.{Map, find, find_or, insert, touch}

pub data EventType : Type 0 where
  transfer_event approval_event mint_event burn_event : EventType

pub record TokenEvent : Type 0 where
  pub event_type : EventType
  pub sender : Bytes
  pub recipient : Bytes
  pub value : ℕ

pub record TokenContract : Type 0 where
  pub name : Bytes
  pub symbol : Bytes
  pub decimals : ℕ
  pub total_supply : ℕ
  pub owner : Bytes
  pub balances : Map Bytes ℕ
  pub allowances : Map Bytes (Map Bytes ℕ)
  pub event_logs : List TokenEvent

log : EventType → Bytes → Bytes → ℕ → List TokenEvent → List TokenEvent
log t from to amount events =
    events ++ (record { event_type = t; sender = from; recipient = to; value = amount } ∷ [])

-- The constructor.
unfoldable pub new_token : Bytes → Bytes → ℕ → ℕ → Bytes → TokenContract
unfolding log
new_token name symbol decimals initial_supply owner =
    let funded = if ltb 0 initial_supply then (if is_empty owner then false else true) else false in
    record {
      name = name;
      symbol = symbol;
      decimals = decimals;
      total_supply = initial_supply;
      owner = owner;
      balances = if funded then insert owner initial_supply [] else [];
      allowances = [];
      event_logs = if funded then log transfer_event [] owner initial_supply [] else [];
    }

unfoldable pub balance_of : TokenContract → Bytes → ℕ
unfolding find_or
balance_of t address = find_or 0 address t.balances

unfoldable pub allowance : TokenContract → Bytes → Bytes → ℕ
unfolding find_or
allowance t owner spender = elim (find owner t.allowances) [
  | none ↦ 0
  | some granted ↦ find_or 0 spender granted
]

-- `balances[from] -= amount; balances[to] += amount;`
unfoldable pub move_balance : Bytes → Bytes → ℕ → Map Bytes ℕ → Map Bytes ℕ
move_balance from to amount balances =
    let debited = insert from (sub64 (find_or 0 from balances) amount) balances in
    insert to (add64 (find_or 0 to debited) amount) debited

unfoldable pub transfer : TokenContract → Bytes → Bytes → ℕ → TokenContract × Bool
unfolding log move_balance
transfer t caller to amount =
    let read = touch 0 caller t.balances in
    if is_empty caller || is_empty to
    then (t, false)
    else if ltb (find_or 0 caller read) amount
    then (record t { balances = read }, false)
    else (
      record t {
        balances = move_balance caller to amount read;
        event_logs = log transfer_event caller to amount t.event_logs;
      },
      true,
    )

-- `allowances[owner][spender] = amount`
unfoldable pub set_allowance : Bytes → Bytes → ℕ → Map Bytes (Map Bytes ℕ) → Map Bytes (Map Bytes ℕ)
set_allowance owner spender amount allowances =
    insert owner (insert spender amount (find_or [] owner allowances)) allowances

-- What reading `allowances[owner][spender]` leaves behind.
unfoldable pub touch_allowance : Bytes → Bytes → Map Bytes (Map Bytes ℕ) → Map Bytes (Map Bytes ℕ)
touch_allowance owner spender allowances =
    insert owner (touch 0 spender (find_or [] owner allowances)) allowances

unfoldable pub approve : TokenContract → Bytes → Bytes → ℕ → TokenContract × Bool
unfolding log set_allowance
approve t caller spender amount = if is_empty caller || is_empty spender then (t, false) else (
  record t {
    allowances = set_allowance caller spender amount t.allowances;
    event_logs = log approval_event caller spender amount t.event_logs;
  },
  true,
)

unfoldable pub transfer_from : TokenContract → Bytes → Bytes → Bytes → ℕ → TokenContract × Bool
unfolding log move_balance set_allowance touch_allowance
transfer_from t spender from to amount =
    let read = touch 0 from t.balances in
    let granted = touch_allowance from spender t.allowances in
    let left = find_or 0 spender (find_or [] from granted) in
    if is_empty spender || (is_empty from || is_empty to)
    then (t, false)
    else if ltb (find_or 0 from read) amount
    then (record t { balances = read }, false)
    else if ltb left amount
    then (record t { balances = read; allowances = granted }, false)
    else (
      record t {
        allowances = set_allowance from spender (sub64 left amount) granted;
        balances = move_balance from to amount read;
        event_logs = log transfer_event from to amount t.event_logs;
      },
      true,
    )

unfoldable pub mint : TokenContract → Bytes → Bytes → ℕ → TokenContract × Bool
unfolding log
mint t caller to amount = if (caller != t.owner) || is_empty to then (t, false) else (
  record t {
    total_supply = add64 t.total_supply amount;
    balances = insert to (add64 (find_or 0 to t.balances) amount) t.balances;
    event_logs = log mint_event [] to amount t.event_logs;
  },
  true,
)

unfoldable pub burn : TokenContract → Bytes → ℕ → TokenContract × Bool
unfolding log
burn t caller amount =
    let read = touch 0 caller t.balances in
    if ltb (find_or 0 caller read) amount then (record t { balances = read }, false) else (
      record t {
        balances = insert caller (sub64 (find_or 0 caller read) amount) read;
        total_supply = sub64 t.total_supply amount;
        event_logs = log burn_event caller [] amount t.event_logs;
      },
      true,
    )

-- A call of a method that changes the contract.
pub data Call : Type 0 where
  transfers : Bytes → Bytes → ℕ → Call
  approves : Bytes → Bytes → ℕ → Call
  transfers_from : Bytes → Bytes → Bytes → ℕ → Call
  mints : Bytes → Bytes → ℕ → Call
  burns : Bytes → ℕ → Call

unfoldable pub apply : TokenContract → Call → TokenContract × Bool
unfolding transfer approve transfer_from mint burn
apply t (transfers caller to amount) = transfer t caller to amount
apply t (approves caller spender amount) = approve t caller spender amount
apply t (transfers_from spender from to amount) = transfer_from t spender from to amount
apply t (mints caller to amount) = mint t caller to amount
apply t (burns caller amount) = burn t caller amount

unfoldable pub run : TokenContract → List Call → TokenContract
unfolding apply
run t [] = t
run t (c ∷ cs) = run (apply t c).0 cs
