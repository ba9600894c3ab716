-- ===== src/Staking/Tests.antt =====
-- A run of the engine.
use mermai_blockchain.Base.{◌≡◌, refl, List, [], ◌∷◌}
use mermai_blockchain.Base.Key.{bytes_beq}
use mermai_blockchain.Crypto.Sample.{sample_crypto}
use mermai_blockchain.Floats.Sample.{sample_floats}
use mermai_blockchain.Staking.{TimeWeightedPos, new_pos, slash_stake, register_validator}
use mermai_blockchain.Staking.Engine.{
  Call, registers, slashes, penalizes, run, get_total_active_stake,
}
use mermai_blockchain.Staking.Roll.{run-new_pos-IsRoll}
use mermai_blockchain.Staking.Addresses.{IsRoll}

-- The third is refused: the address is taken. Slashing by a half, and a penalty of ten percent.
abbrev calls : List (Call sample_floats)
calls =
    registers 5 (97 ∷ []) 3000000 []
    ∷ registers 6 (98 ∷ []) 2000000 (7 ∷ [])
    ∷ registers 7 (97 ∷ []) 2000000 []
    ∷ slashes (97 ∷ []) 500
    ∷ penalizes (98 ∷ []) 10000
    ∷ []

abbrev after : TimeWeightedPos sample_floats.Float
after = run sample_floats sample_crypto (new_pos sample_floats) calls

after-stake : get_total_active_stake sample_floats after ≡ 3300000
unfolding get_total_active_stake run new_pos bytes_beq slash_stake register_validator
after-stake = refl

run-new_pos-IsRoll_example : IsRoll sample_floats after.active_validators
run-new_pos-IsRoll_example = run-new_pos-IsRoll sample_floats sample_crypto calls
