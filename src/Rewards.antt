-- ===== src/Rewards.antt =====
-- `mermai_reward_calculator`: include/mermai/mermai_consensus.hpp and
-- src/consensus/mermai_consensus.cpp.
pub mod Amounts
mod Tests
use mermai_blockchain.Base.{ℕ, zero, suc, ◌+◌, ◌-◌, ◌/◌, List, [], ◌∷◌, ◌++◌, ltb, if◌then◌else◌}
use mermai_blockchain.Base.Words.{u64_max}
use mermai_blockchain.Base.Key.{Bytes}
use mermai_blockchain.Transaction.{Transaction}
use mermai_blockchain.Block.{Block}

-- The field `reason`: its two texts.
pub data RewardReason : Type 0 where
  block_proposal : RewardReason
  transaction_fees : RewardReason

pub record BlockReward : Type 0 where
  pub recipient : Bytes
  pub amount : ℕ
  pub reason : RewardReason

-- The loop of `get_base_reward`: at most that many halvings, while the reward is positive.
unfoldable pub halve : ℕ → ℕ → ℕ
halve zero reward = reward
halve (suc halvings) reward =
    let rest = halve halvings (reward / 2) in if ltb 0 reward then rest else reward

unfoldable pub get_base_reward : ℕ → ℕ
unfolding halve
get_base_reward block_height = halve (block_height / 210000) 50000000

-- The loop of `distribute_fees`: the sum, which stays at the largest number.
unfoldable pub add_fees : ℕ → List Transaction → ℕ
add_fees total_fees [] = total_fees
add_fees total_fees (tx ∷ transactions) =
    add_fees (if ltb (u64_max - total_fees) tx.fee then u64_max else total_fees + tx.fee)
      transactions

unfoldable pub distribute_fees : List Transaction → Bytes → List BlockReward
unfolding add_fees
distribute_fees transactions proposer =
    let total_fees = add_fees 0 transactions in
    if ltb 0 total_fees
    then record { recipient = proposer; amount = total_fees; reason = transaction_fees } ∷ []
    else []

unfoldable pub calculate_block_rewards : Block → ℕ → List BlockReward
unfolding get_base_reward distribute_fees
calculate_block_rewards b block_height =
    record {
      recipient = b.validator_address;
      amount = get_base_reward block_height;
      reason = block_proposal;
    }
    ∷ distribute_fees b.transactions b.validator_address
