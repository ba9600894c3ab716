-- ===== src/Rewards/Tests.antt =====
-- Rewards at concrete heights and fees.
use mermai_blockchain.Base.{◌+◌, ◌*◌, ◌/◌, ◌^◌, ◌≤◌, ◌<◌, ◌≡◌, refl, List, [], ◌∷◌}
use mermai_blockchain.Base.Words.{u64_max}
use mermai_blockchain.Transaction.{Transaction}
use mermai_blockchain.Rewards.{get_base_reward}
use mermai_blockchain.Rewards.Amounts.{get_base_reward_bounds}

get_base_reward-420000 : get_base_reward 420000 ≡ 12500000
unfolding get_base_reward
get_base_reward-420000 = refl

get_base_reward_bounds_example :
    (get_base_reward 420000 * 2 ^ (420000 / 210000) ≤ 50000000)
    × (50000000 < (get_base_reward 420000 + 1) * 2 ^ (420000 / 210000))
get_base_reward_bounds_example = get_base_reward_bounds 420000

abbrev paying : List Transaction
paying =
    record { id = []; inputs = []; outputs = []; fee = u64_max; timestamp = 0 }
    ∷ record { id = []; inputs = []; outputs = []; fee = 7; timestamp = 0 }
    ∷ []
