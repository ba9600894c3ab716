-- ===== src/Staking/Engine.antt =====
-- `mermai_time_weighted_pos`: the proposer of a slot, finalized blocks, rewards and penalties.
use mermai_blockchain.Base.{
  ℕ, ◌+◌, ◌-◌, ◌*◌, ◌%◌, Bool, true, false, none, some, List, [], ◌∷◌, ◌++◌, leb, length, take,
  if◌then◌else◌,
}
use mermai_blockchain.Base.Words.{add64, u32_mod}
use mermai_blockchain.Base.Key.{Bytes, bytes_key, nat_key, ◌==◌}
use mermai_blockchain.Base.Map.{Map, find_or, insert}
use mermai_blockchain.Crypto.{Crypto}
use mermai_blockchain.Floats.{Floats}
use mermai_blockchain.Vote.{to_decimal}
use mermai_blockchain.Block.{Block}
use mermai_blockchain.Rewards.{BlockReward, calculate_block_rewards}
use mermai_blockchain.Staking.{
  ValidatorStake, TimeWeightedPos, validator_of, update, slash_stake, calculate_weight,
  register_validator, unregister_validator, restore_validator,
}

-- `std::memcpy` of 8 bytes into an integer, the lowest byte first.
unfoldable pub little_endian : Bytes → ℕ
little_endian [] = 0
little_endian (b ∷ bytes) = b + 256 * little_endian bytes

module _ (floats : Floats) where
  -- The loop that computes the weights.
  unfoldable pub weigh : ℕ → List (ValidatorStake floats.Float) → List (Bytes × floats.Float)
  weigh current_time [] = []
  weigh current_time (v ∷ validators) =
      (v.address, calculate_weight floats v current_time) ∷ weigh current_time validators

  unfoldable pub total_weight : floats.Float → List (Bytes × floats.Float) → floats.Float
  total_weight sum [] = sum
  total_weight sum (w ∷ weighted) = total_weight (floats.add sum w.1) weighted

  unfoldable pub proposer_seed : List (Bytes × floats.Float) → Bytes
  proposer_seed [] = []
  proposer_seed (w ∷ weighted) = w.0 ++ (floats.print w.1 ++ proposer_seed weighted)

  -- The loop over the cumulative weights, with the address it ends on when none is reached.
  unfoldable pub pick : floats.Float → floats.Float → Bytes → List (Bytes × floats.Float) → Bytes
  pick random_value cumulative last [] = last
  pick random_value cumulative last (w ∷ weighted) =
      let reached = floats.add cumulative w.1 in
      if floats.le random_value reached then w.0 else pick random_value reached w.0 weighted

  unfoldable pub select_block_proposer : Crypto → ℕ → TimeWeightedPos floats.Float → Bytes
  unfolding weigh total_weight proposer_seed pick
  select_block_proposer crypto current_time s = elim s.active_validators [
    | [] ↦ []
    | first ∷ validators ↦
        let weighted = weigh current_time (first ∷ validators) in
        let total = total_weight (floats.ratio 0 1) weighted in
        let digest = crypto.sha256 (to_decimal current_time ++ proposer_seed weighted) in
        if floats.le total (floats.ratio 0 1)
        then first.address
        else pick (floats.fmod (little_endian (take 8 digest)) total) (floats.ratio 0 1) [] weighted
  ]

  -- The loop of `finalize_block` over the rewards.
  unfoldable pub credit : List BlockReward → Map Bytes ℕ → Map Bytes ℕ
  credit [] pending = pending
  credit (r ∷ rewards) pending =
      credit rewards (insert r.recipient (add64 (find_or 0 r.recipient pending) r.amount) pending)

  unfoldable pub finalize_block :
      Block → Bytes → TimeWeightedPos floats.Float → TimeWeightedPos floats.Float
  unfolding credit update
  finalize_block b proposer_address s = record s {
    pending_rewards = credit (calculate_block_rewards b b.height) s.pending_rewards;
    active_validators =
        update floats proposer_address (λ v. record v { last_proposal = b.timestamp })
          s.active_validators;
  }

  -- `std::min(1.0f, std::max(0.0f, x))`
  unfoldable pub clamp : floats.Float → floats.Float
  clamp x =
      let positive = if floats.lt (floats.ratio 0 1) x then x else floats.ratio 0 1 in
      if floats.lt positive (floats.ratio 1 1) then positive else floats.ratio 1 1

  -- `slash_validator` with a reason, which it only prints.
  unfoldable pub slash_validator :
      Bytes → floats.Float → TimeWeightedPos floats.Float → TimeWeightedPos floats.Float
  unfolding clamp
  slash_validator address penalty_percentage s = record s {
    active_validators = slash_stake floats address (clamp penalty_percentage) s.active_validators;
  }

  -- The overload whose percentage runs to 100.
  unfoldable pub slash_validator_percent :
      Bytes → floats.Float → TimeWeightedPos floats.Float → TimeWeightedPos floats.Float
  unfolding slash_validator
  slash_validator_percent address penalty_percentage s =
      slash_validator address (floats.div penalty_percentage (floats.ratio 100 1)) s

  unfoldable pub reduce : floats.Float → ℕ → ℕ
  reduce penalty amount =
      let reduction = floats.to_u64 (floats.mul (floats.of_nat amount) penalty) in
      if leb amount reduction then 0 else amount - reduction

  unfoldable pub apply_inactivity_penalty :
      Bytes → floats.Float → TimeWeightedPos floats.Float → TimeWeightedPos floats.Float
  unfolding clamp reduce update
  apply_inactivity_penalty address penalty_percentage s =
      let penalty = clamp (floats.div penalty_percentage (floats.ratio 100 1)) in
      record s {
        active_validators =
            update floats address (λ v. record v { amount = reduce penalty v.amount })
              s.active_validators;
      }

  unfoldable pub claim_rewards :
      Bytes → TimeWeightedPos floats.Float → TimeWeightedPos floats.Float × Bool
  claim_rewards validator_address s =
      if find_or 0 validator_address s.pending_rewards == 0
      then (s, false)
      else (record s { pending_rewards = insert validator_address 0 s.pending_rewards }, true)

  unfoldable pub get_pending_rewards : Bytes → TimeWeightedPos floats.Float → ℕ
  get_pending_rewards validator_address s = find_or 0 validator_address s.pending_rewards

  unfoldable pub get_validator_weight : Bytes → ℕ → TimeWeightedPos floats.Float → floats.Float
  get_validator_weight address current_time s =
      elim (validator_of floats address s.active_validators) [
        | none ↦ floats.ratio 0 1
        | some v ↦ calculate_weight floats v current_time
      ]

  unfoldable pub get_active_validator_count : TimeWeightedPos floats.Float → ℕ
  get_active_validator_count s = length s.active_validators % u32_mod

  unfoldable pub sum_stakes : ℕ → List (ValidatorStake floats.Float) → ℕ
  sum_stakes total [] = total
  sum_stakes total (v ∷ validators) = sum_stakes (add64 total v.amount) validators

  unfoldable pub get_total_active_stake : TimeWeightedPos floats.Float → ℕ
  unfolding sum_stakes
  get_total_active_stake s = sum_stakes 0 s.active_validators

  -- The calls that change the engine.
  pub data Call : Type 0 where
    registers : ℕ → Bytes → ℕ → Bytes → Call
    unregisters : Bytes → Call
    restores : ValidatorStake floats.Float → Call
    finalizes : Block → Bytes → Call
    slashes : Bytes → floats.Float → Call
    penalizes : Bytes → floats.Float → Call
    claims : Bytes → Call

  unfoldable pub apply : Crypto → TimeWeightedPos floats.Float → Call → TimeWeightedPos floats.Float
  unfolding finalize_block slash_validator apply_inactivity_penalty claim_rewards
  apply crypto s (registers now address amount public_key) =
      (register_validator floats crypto now address amount public_key s).0
  apply crypto s (unregisters address) = (unregister_validator floats address s).0
  apply crypto s (restores stake) = (restore_validator floats stake s).0
  apply crypto s (finalizes b proposer) = finalize_block b proposer s
  apply crypto s (slashes address percentage) = slash_validator address percentage s
  apply crypto s (penalizes address percentage) = apply_inactivity_penalty address percentage s
  apply crypto s (claims address) = (claim_rewards address s).0

  unfoldable pub run :
      Crypto → TimeWeightedPos floats.Float → List Call → TimeWeightedPos floats.Float
  unfolding apply
  run crypto s [] = s
  run crypto s (c ∷ cs) = run crypto (apply crypto s c) cs
