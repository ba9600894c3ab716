-- ===== src/Database/Validators.antt =====
-- The table of validators: `save_validator`, `get_validator` and `get_all_validators` of
-- src/db/mermai_db.cpp. The weight, a float, is bound and read as a double.
use mermai_blockchain.Base.{Bool, Option, List, [], ◌∷◌}
use mermai_blockchain.Base.Key.{Bytes}
use mermai_blockchain.Floats.{Floats}
use mermai_blockchain.Staking.{ValidatorStake}
use mermai_blockchain.Database.{
  Statement, upsert_validator, select_validator, select_all_validators, Column, Reply, rows_of,
  c_string, text_at, integer_at, real_at, blob_at,
}
use mermai_blockchain.Database.Store.{execute}
use mermai_blockchain.Database.Records.{perform}

module _ (floats : Floats) where
  -- The columns of a row from a place on, as the validator of an address.
  unfoldable pub validator_of_columns : Bytes → List Column → ValidatorStake floats.Float
  validator_of_columns address row = record {
    address = address;
    amount = integer_at 0 row;
    lock_time = integer_at 1 row;
    last_proposal = integer_at 2 row;
    weight = floats.of_double (real_at 3 row);
    public_key = blob_at 4 row;
  }

  unfoldable pub first_validator : Bytes → List (List Column) → ValidatorStake floats.Float
  unfolding validator_of_columns
  first_validator address [] = record {
    address = address;
    amount = 0;
    lock_time = 0;
    last_proposal = 0;
    weight = floats.ratio 0 1;
    public_key = [];
  }
  first_validator address (row ∷ rest) = validator_of_columns address row

  unfoldable pub validators_of_rows : List (List Column) → List (ValidatorStake floats.Float)
  unfolding validator_of_columns
  validators_of_rows [] = []
  validators_of_rows ([] ∷ rest) = validator_of_columns [] [] ∷ validators_of_rows rest
  validators_of_rows ((column ∷ row) ∷ rest) =
      validator_of_columns (text_at 0 (column ∷ row)) row ∷ validators_of_rows rest

  module _ {Db : Type 0} (run : Statement → Db → Reply × Db) where
    unfoldable pub save_validator : ValidatorStake floats.Float → Option Db → Bool × Option Db
    unfolding perform
    save_validator stake db =
        perform run
          (upsert_validator (c_string stake.address) stake.amount stake.lock_time
            stake.last_proposal (floats.to_double stake.weight) stake.public_key)
          db

    unfoldable pub get_validator : Bytes → Option Db → ValidatorStake floats.Float × Option Db
    unfolding first_validator
    get_validator address db =
        let r = execute run (select_validator (c_string address)) db in
        (first_validator address (rows_of r.0), r.1)

    unfoldable pub get_all_validators : Option Db → List (ValidatorStake floats.Float) × Option Db
    unfolding validators_of_rows
    get_all_validators db =
        let r = execute run select_all_validators db in (validators_of_rows (rows_of r.0), r.1)
