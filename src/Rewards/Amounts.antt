-- ===== src/Rewards/Amounts.antt =====
-- The amounts of the rewards, in closed form.
use mermai_blockchain.Base.{
  ℕ, zero, suc, ◌+◌, ◌*◌, ◌/◌, ◌^◌, ◌≤◌, ◌<◌, ◌≡◌, refl, List, [], ◌∷◌, arith, ltb, if◌then◌else◌,
}
use mermai_blockchain.Base.Words.{u64_max}
use mermai_blockchain.Base.Key.{Bytes}
use mermai_blockchain.Transaction.{Transaction}
use mermai_blockchain.Rewards.{BlockReward, halve, get_base_reward, add_fees, distribute_fees}

-- The sum of the fees, without a bound.
unfoldable pub fees : List Transaction → ℕ
fees [] = 0
fees (tx ∷ transactions) = tx.fee + fees transactions

abbrev pub total : List BlockReward → ℕ
total [] = 0
total (r ∷ rewards) = r.amount + total rewards

-- As much as 64 bits hold.
abbrev pub capped : ℕ → ℕ
capped n = if ltb u64_max n then u64_max else n

add_fees_lem :
    (sum : ℕ) (txs : List Transaction) → sum ≤ u64_max → add_fees sum txs ≡ capped (sum + fees txs)
unfolding add_fees fees
add_fees_lem sum [] h = ground arith
add_fees_lem sum (tx ∷ txs) h =
    ground (arith, add_fees_lem (sum + tx.fee) txs, add_fees_lem u64_max txs)

-- The fee rewards of a block come to the sum of its transactions' fees, or to the largest 64-bit
-- number where the sum is beyond that.
total-distribute_fees :
    (txs : List Transaction) (proposer : Bytes)
    → total (distribute_fees txs proposer) ≡ capped (fees txs)
unfolding distribute_fees
total-distribute_fees txs proposer = ground (arith, add_fees_lem 0 txs)

halve_zero : (halvings : ℕ) → halve halvings 0 ≡ 0
unfolding halve
halve_zero zero = refl
halve_zero (suc halvings) = refl

double_bounds :
    (q r p : ℕ) → q * p ≤ r / 2 → r / 2 < (q + 1) * p → (q * (2 * p) ≤ r) × (r < (q + 1) * (2 * p))
double_bounds q r p a b = grind arith

halve_step :
    (q r p p2 : ℕ)
    → p2 ≡ 2 * p
    → q * p ≤ r / 2
    → r / 2 < (q + 1) * p
    → (kept : ℕ) → kept ≡ (if ltb 0 r then q else r)
    → (kept * p2 ≤ r) × (r < (kept + 1) * p2)
halve_step q zero p p2 e a b kept f = rw (f, e) (omega arith, grind arith)
halve_step q (suc r) p p2 e a b kept f =
    let same : kept ≡ q = ground arith in rw (same, e) (double_bounds q (suc r) p a b)

halve_bounds :
    (halvings reward : ℕ)
    → (halve halvings reward * 2 ^ halvings ≤ reward)
      × (reward < (halve halvings reward + 1) * 2 ^ halvings)
unfolding halve
halve_bounds zero reward = omega arith
halve_bounds (suc halvings) reward =
    let rest = halve_bounds halvings (reward / 2) in
    halve_step (halve halvings (reward / 2)) reward (2 ^ halvings) (2 ^ suc halvings) (omega arith)
      rest.0 rest.1 (halve (suc halvings) reward) refl

-- The base reward of a height is the 50000000 of the first blocks halved once for each 210000
-- blocks: it is the quotient by that power of 2, rounded down.
pub get_base_reward_bounds :
    (height : ℕ)
    → (get_base_reward height * 2 ^ (height / 210000) ≤ 50000000)
      × (50000000 < (get_base_reward height + 1) * 2 ^ (height / 210000))
unfolding get_base_reward
get_base_reward_bounds height = halve_bounds (height / 210000) 50000000
