-- ===== src/Staking/Roll.antt =====
-- What every sequence of calls keeps of the validators.
use mermai_blockchain.Base.{
  ℕ, refl, ◌&&◌, ◌||◌, not, List, [], ◌∷◌, arith, ltb, is_empty, Bool-cases, inl, inr,
}
use mermai_blockchain.Base.Key.{Bytes, bytes_key, nat_key, ◌==◌}
use mermai_blockchain.Base.Map.{find_or}
use mermai_blockchain.Crypto.{Crypto}
use mermai_blockchain.Floats.{Floats}
use mermai_blockchain.Staking.{
  ValidatorStake, TimeWeightedPos, min_stake, new_pos, slash_stake, add_validator, is_registered,
  register_validator, unregister_validator, restore_validator,
}
use mermai_blockchain.Staking.Engine.{
  finalize_block, slash_validator, apply_inactivity_penalty, claim_rewards, Call, registers,
  unregisters, restores, finalizes, slashes, penalizes, claims, apply, run,
}
use mermai_blockchain.Staking.Addresses.{
  IsRoll, append-IsRoll, NotIn-remove, Distinct-remove, addresses-update, same_addresses-IsRoll,
}

module _ (floats : Floats) where
  pub registered-IsRoll :
      (crypto : Crypto) (now : ℕ) (address : Bytes) (amount : ℕ) (key : Bytes)
      (s : TimeWeightedPos floats.Float)
      → IsRoll floats s.active_validators
      → IsRoll floats
          (register_validator floats crypto now address amount key s).0.active_validators
  unfolding register_validator add_validator
  registered-IsRoll crypto now address amount key s w =
      elim (Bool-cases (ltb amount min_stake || is_empty address)) [
        | inl low ↦ rw low w
        | inr enough ↦ (elim (Bool-cases (not (is_empty key) && not (crypto.parses_key key))) [
          | inl bad ↦ rw (enough, bad) w
          | inr good ↦ (elim (Bool-cases (is_registered floats address s.active_validators)) [
            | inl known ↦ rw (enough, good, known) w
            | inr new ↦
                rw (enough, good, new)
                  (append-IsRoll floats s.active_validators _ new (λ e. ground arith) w)
          ])
        ])
      ]

  restored-IsRoll :
      (stake : ValidatorStake floats.Float) (s : TimeWeightedPos floats.Float)
      → IsRoll floats s.active_validators
      → IsRoll floats (restore_validator floats stake s).0.active_validators
  unfolding restore_validator
  restored-IsRoll stake s w =
      elim (Bool-cases
        (is_empty stake.address || (ltb stake.amount min_stake || stake.lock_time == 0))) [
          | inl low ↦ rw low w
          | inr enough ↦
              (elim (Bool-cases (is_registered floats stake.address s.active_validators)) [
                | inl known ↦ rw (enough, known) w
                | inr new ↦
                    rw (enough, new)
                      (append-IsRoll floats s.active_validators stake new (λ e. ground arith) w)
              ])
        ]

  unregistered-IsRoll :
      (address : Bytes) (s : TimeWeightedPos floats.Float)
      → IsRoll floats s.active_validators
      → IsRoll floats (unregister_validator floats address s).0.active_validators
  unfolding unregister_validator
  unregistered-IsRoll address s w =
      elim (Bool-cases (is_registered floats address s.active_validators)) [
        | inr missing ↦ rw missing w
        | inl known ↦ rw known (record {
          distinct = Distinct-remove floats address s.active_validators w.distinct;
          named = NotIn-remove floats [] address s.active_validators w.named;
        })
      ]

  claimed-IsRoll :
      (address : Bytes) (s : TimeWeightedPos floats.Float)
      → IsRoll floats s.active_validators
      → IsRoll floats (claim_rewards floats address s).0.active_validators
  unfolding claim_rewards
  claimed-IsRoll address s w = elim (Bool-cases (find_or 0 address s.pending_rewards == 0)) [
    | inl nothing ↦ rw nothing w
    | inr some ↦ rw some w
  ]

  apply-IsRoll :
      (crypto : Crypto) (s : TimeWeightedPos floats.Float) (c : Call floats)
      → IsRoll floats s.active_validators
      → IsRoll floats (apply floats crypto s c).active_validators
  unfolding apply finalize_block slash_validator slash_stake apply_inactivity_penalty
  apply-IsRoll crypto s (registers now address amount key) w =
      registered-IsRoll crypto now address amount key s w
  apply-IsRoll crypto s (unregisters address) w = unregistered-IsRoll address s w
  apply-IsRoll crypto s (restores stake) w = restored-IsRoll stake s w
  apply-IsRoll crypto s (finalizes b proposer) w =
      same_addresses-IsRoll floats s.active_validators _
        (addresses-update floats proposer _ s.active_validators (λ v. refl)) w
  apply-IsRoll crypto s (slashes address percentage) w =
      same_addresses-IsRoll floats s.active_validators _
        (addresses-update floats address _ s.active_validators (λ v. refl)) w
  apply-IsRoll crypto s (penalizes address percentage) w =
      same_addresses-IsRoll floats s.active_validators _
        (addresses-update floats address _ s.active_validators (λ v. refl)) w
  apply-IsRoll crypto s (claims address) w = claimed-IsRoll address s w

  run-IsRoll :
      (crypto : Crypto) (s : TimeWeightedPos floats.Float) (cs : List (Call floats))
      → IsRoll floats s.active_validators
      → IsRoll floats (run floats crypto s cs).active_validators
  unfolding run
  run-IsRoll crypto s [] w = w
  run-IsRoll crypto s (c ∷ cs) w =
      run-IsRoll crypto (apply floats crypto s c) cs (apply-IsRoll crypto s c w)

  -- After any sequence of calls on a new engine no two active validators have the same address,
  -- and none has the empty address, whatever the float arithmetic does.
  pub run-new_pos-IsRoll :
      (crypto : Crypto) (cs : List (Call floats))
      → IsRoll floats (run floats crypto (new_pos floats) cs).active_validators
  run-new_pos-IsRoll crypto cs =
      run-IsRoll crypto (new_pos floats) cs (unfold new_pos in record { distinct = tt; named = tt })
