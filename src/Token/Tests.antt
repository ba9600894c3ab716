-- ===== src/Token/Tests.antt =====
-- Runs of the token contract, and its theorems at concrete inputs.
use mermai_blockchain.Base.{◌+◌, ◌≤◌, ◌≡◌, refl, true, false, List, [], ◌∷◌, arith}
use mermai_blockchain.Base.Words.{IsU64}
use mermai_blockchain.Base.Key.{Bytes, bytes_beq, bytes_less}
use mermai_blockchain.Base.Map.{insert, find, find_or, touch, sum_by}
use mermai_blockchain.Token.{
  TokenContract, new_token, balance_of, allowance, transfer, approve, Call, transfers, approves,
  transfers_from, mints, burns, apply, run,
}
use mermai_blockchain.Token.Supply.{IsCongruent, IsBacked, run-new_token-IsCongruent}
use mermai_blockchain.Token.Transfers.{transfer_moves}
use mermai_blockchain.Token.Allowances.{total_taken, total_taken-allowance}

abbrev alice : Bytes
alice = 97 ∷ []

abbrev bob : Bytes
bob = 98 ∷ []

abbrev carol : Bytes
carol = 99 ∷ []

abbrev deployed : TokenContract
deployed = new_token (77 ∷ []) (77 ∷ []) 18 1000 alice

abbrev calls : List Call
calls =
    transfers alice bob 300
    ∷ approves bob carol 200
    ∷ transfers_from carol bob alice 150
    ∷ transfers_from carol bob alice 100
    ∷ mints bob bob 5
    ∷ mints alice carol 50
    ∷ burns bob 50
    ∷ []

run_balances :
    (balance_of (run deployed calls) alice ≡ 850)
    × (balance_of (run deployed calls) bob ≡ 100)
    × (balance_of (run deployed calls) carol ≡ 50)
    × (allowance (run deployed calls) bob carol ≡ 50)
    × ((run deployed calls).total_supply ≡ 1000)
unfolding run new_token balance_of allowance insert find touch bytes_beq bytes_less
run_balances = (refl, refl, refl, refl, refl)

run-new_token-IsCongruent_example :
    IsCongruent (run (new_token (77 ∷ []) (77 ∷ []) 18 1000 alice) calls)
run-new_token-IsCongruent_example =
    run-new_token-IsCongruent (77 ∷ []) (77 ∷ []) 18 1000 alice calls (λ e. cc) (omega arith)

deployed-IsBacked : IsBacked deployed
unfolding new_token sum_by insert
deployed-IsBacked = refl

deployed-supply : IsU64 deployed.total_supply
unfolding new_token
deployed-supply = omega arith

covered : 300 ≤ balance_of deployed alice
unfolding new_token balance_of insert find bytes_beq
covered = omega arith

transfer_moves_example : (transfer deployed alice bob 300).1 ≡ true
transfer_moves_example =
    (transfer_moves deployed alice bob 300 carol (λ e. cc) (λ e. cc) (ground arith) covered
      deployed-IsBacked deployed-supply).0

refused : (apply deployed (transfers alice bob 1001)).1 ≡ false
unfolding new_token apply insert find touch bytes_beq find_or
refused = refl

abbrev granting : TokenContract
granting = (approve deployed alice carol 200).0

abbrev spending : List Call
spending =
    transfers_from carol alice bob 120
    ∷ transfers_from carol alice bob 120
    ∷ approves alice bob 9
    ∷ transfers_from carol alice carol 30
    ∷ []

granted_amount : allowance granting alice carol ≡ 200
unfolding new_token approve allowance insert find bytes_beq
granted_amount = refl

total_taken-allowance_example :
    allowance (run granting spending) alice carol + total_taken alice carol granting spending
    ≡ allowance granting alice carol
unfolding bytes_beq
total_taken-allowance_example =
    total_taken-allowance alice carol granting spending (tt, (tt, (refl, (tt, tt))))
      (omega (arith, granted_amount))

total_taken_value : total_taken alice carol granting spending ≡ 150
unfolding total_taken apply new_token approve insert find touch bytes_beq bytes_less find_or
total_taken_value = refl
