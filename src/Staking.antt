-- ===== src/Staking.antt =====
-- `mermai_consensus_state` of src/core/mermai_blockchain.cpp and `mermai_time_weighted_pos` of
-- src/consensus/mermai_consensus.cpp, with include/mermai/mermai_consensus.hpp: the validators,
-- their stakes and weights, the proposer of a slot, rewards and penalties.
pub mod Engine
pub mod Addresses
pub mod Roll
mod Tests
use mermai_blockchain.Base.{
  ℕ, ◌+◌, ◌-◌, ◌*◌, ◌/◌, ◌%◌, ◌^◌, Bool, true, false, ◌&&◌, ◌||◌, not, Option, none, some, List, [],
  ◌∷◌, ◌++◌, ltb, leb, length, is_empty, if◌then◌else◌,
}
use mermai_blockchain.Base.Words.{add64, u32_mod}
use mermai_blockchain.Base.Key.{Bytes, bytes_key, nat_key, ◌==◌}
use mermai_blockchain.Base.Map.{Map, find, find_or, insert}
use mermai_blockchain.Crypto.{Crypto}
use mermai_blockchain.Vote.{to_decimal}
use mermai_blockchain.Block.{Block}
use mermai_blockchain.Rewards.{BlockReward, calculate_block_rewards}
use mermai_blockchain.Floats.{Floats}

pub record ValidatorStake (F : Type 0) : Type 0 where
  pub address : Bytes
  pub amount : ℕ
  pub lock_time : ℕ
  pub last_proposal : ℕ
  pub weight : F
  pub public_key : Bytes

-- `consensus_state.active_validators` and `pending_rewards`; the minimal stake is a constant.
pub record TimeWeightedPos (F : Type 0) : Type 0 where
  pub active_validators : List (ValidatorStake F)
  pub pending_rewards : Map Bytes ℕ

abbrev pub min_stake : ℕ
min_stake = 1000000

module _ (floats : Floats) where
  abbrev Stakes : Type 0
  Stakes = List (ValidatorStake floats.Float)

  unfoldable pub new_pos : TimeWeightedPos floats.Float
  new_pos = record { active_validators = []; pending_rewards = [] }

  -- The search loops: the first validator of the address.
  unfoldable pub validator_of : Bytes → Stakes → Option (ValidatorStake floats.Float)
  validator_of address [] = none
  validator_of address (v ∷ validators) =
      if v.address == address then some v else validator_of address validators

  -- The loops that change the first validator of the address.
  unfoldable pub update :
      Bytes → (ValidatorStake floats.Float → ValidatorStake floats.Float) → Stakes → Stakes
  update address f [] = []
  update address f (v ∷ validators) =
      if v.address == address then f v ∷ validators else v ∷ update address f validators

  -- `mermai_consensus_state::calculate_validator_weight`
  unfoldable pub calculate_validator_weight : ValidatorStake floats.Float → floats.Float
  calculate_validator_weight stake = stake.weight

  -- `mermai_consensus_state::select_proposer`
  unfoldable pub select_proposer : Stakes → Bytes
  select_proposer [] = []
  select_proposer (v ∷ validators) = v.address

  -- `mermai_consensus_state::slash_validator`
  unfoldable pub slash_stake : Bytes → floats.Float → Stakes → Stakes
  unfolding update
  slash_stake address percentage validators =
      update address
        (λ v. record v {
          amount =
              floats.to_u64
                (floats.mul (floats.of_nat v.amount) (floats.sub (floats.ratio 1 1) percentage));
        })
        validators

  -- `mermai_consensus_state::add_validator`, at the time `now`.
  unfoldable pub add_validator : ℕ → Bytes → ℕ → Bytes → Stakes → Stakes
  add_validator now address amount public_key validators =
      validators
      ++ (record {
        address = address;
        amount = amount;
        lock_time = now;
        last_proposal = 0;
        weight = floats.of_nat amount;
        public_key = public_key;
      }
          ∷ [])

  -- `mermai_consensus_state::remove_validator`
  unfoldable pub remove_validator : Bytes → Stakes → Stakes
  remove_validator address [] = []
  remove_validator address (v ∷ validators) =
      if v.address == address
      then remove_validator address validators
      else v ∷ remove_validator address validators

  unfoldable pub is_registered : Bytes → Stakes → Bool
  is_registered address [] = false
  is_registered address (v ∷ validators) =
      if v.address == address then true else is_registered address validators

  unfoldable pub register_validator :
      Crypto
      → ℕ
      → Bytes
      → ℕ
      → Bytes
      → TimeWeightedPos floats.Float
      → TimeWeightedPos floats.Float × Bool
  unfolding is_registered add_validator
  register_validator crypto now address stake_amount public_key s =
      if ltb stake_amount min_stake || is_empty address
      then (s, false)
      else if not (is_empty public_key) && not (crypto.parses_key public_key)
      then (s, false)
      else if is_registered address s.active_validators
      then (s, false)
      else (
        record s {
          active_validators = add_validator now address stake_amount public_key s.active_validators;
        },
        true,
      )

  unfoldable pub unregister_validator :
      Bytes → TimeWeightedPos floats.Float → TimeWeightedPos floats.Float × Bool
  unfolding is_registered remove_validator
  unregister_validator address s =
      if is_registered address s.active_validators
      then (record s { active_validators = remove_validator address s.active_validators }, true)
      else (s, false)

  unfoldable pub restore_validator :
      ValidatorStake floats.Float
      → TimeWeightedPos floats.Float
      → TimeWeightedPos floats.Float × Bool
  unfolding is_registered
  restore_validator stake s =
      if is_empty stake.address || (ltb stake.amount min_stake || stake.lock_time == 0)
      then (s, false)
      else if is_registered stake.address s.active_validators
      then (s, false)
      else (record s { active_validators = s.active_validators ++ (stake ∷ []) }, true)

  -- `std::min(a, b)` of two floats.
  abbrev min_float : floats.Float → floats.Float → floats.Float
  min_float a b = if floats.lt b a then b else a

  abbrev max_float : floats.Float → floats.Float → floats.Float
  max_float a b = if floats.lt a b then b else a

  unfoldable pub calculate_time_multiplier : ℕ → floats.Float
  calculate_time_multiplier stake_age_seconds =
      let days = stake_age_seconds / 86400 in
      if ltb days 1
      then floats.ratio 1 1
      else if ltb days 30
      then floats.add (floats.ratio 1 1) (floats.mul (floats.of_nat days) (floats.ratio 1 1000))
      else if ltb days 365
      then floats.add (floats.ratio 103 100)
          (floats.mul (floats.of_nat (days - 30)) (floats.ratio 1 1000))
      else floats.add (floats.ratio 1365 1000) (
          min_float (floats.ratio 1 10)
            (floats.mul (floats.of_nat (days - 365)) (floats.ratio 1 10000)))

  unfoldable pub calculate_performance_multiplier : ValidatorStake floats.Float → floats.Float
  calculate_performance_multiplier stake = floats.ratio 1 1

  -- The age of a stake at a time, 0 before its lock time.
  abbrev pub stake_age : ℕ → ValidatorStake floats.Float → ℕ
  stake_age current_time stake =
      if leb stake.lock_time current_time then current_time - stake.lock_time else 0

  unfoldable pub calculate_weight : ValidatorStake floats.Float → ℕ → floats.Float
  unfolding calculate_time_multiplier calculate_performance_multiplier
  calculate_weight stake current_time =
      floats.mul
        (floats.mul (floats.of_nat stake.amount)
          (calculate_time_multiplier (stake_age current_time stake)))
        (calculate_performance_multiplier stake)
