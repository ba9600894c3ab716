-- ===== src/Staking/Addresses.antt =====
-- The addresses of the validators after one is added, taken out or changed.
use mermai_blockchain.Base.{
  ◌≡◌, ◌≢◌, refl, sym, subst, ap, true, false, List, [], ◌∷◌, ◌++◌, arith, if◌then◌else◌,
}
use mermai_blockchain.Base.Key.{Bytes, bytes_key, nat_key, ◌==◌, bytes_beq_iff}
use mermai_blockchain.Base.Set.{NotIn, Distinct}
use mermai_blockchain.Floats.{Floats}
use mermai_blockchain.Staking.{ValidatorStake, update, remove_validator, is_registered}

module _ (floats : Floats) where
  abbrev addresses : List (ValidatorStake floats.Float) → List Bytes
  addresses [] = []
  addresses (v ∷ validators) = v.address ∷ addresses validators

  -- No two validators have the same address, and none has the empty one.
  pub record IsRoll (validators : List (ValidatorStake floats.Float)) : Type 0 where
    pub distinct : Distinct (addresses validators)
    pub named : NotIn [] (addresses validators)

  is_registered-NotIn :
      (address : Bytes) (validators : List (ValidatorStake floats.Float))
      → is_registered floats address validators ≡ false
      → NotIn address (addresses validators)
  unfolding is_registered
  is_registered-NotIn address [] h = tt
  is_registered-NotIn address (v ∷ validators) h = (
    ground (arith, bytes_beq_iff v.address address),
    is_registered-NotIn address validators (ground arith),
  )

  NotIn-append :
      (a : Bytes) (validators : List (ValidatorStake floats.Float))
      (v : ValidatorStake floats.Float)
      → NotIn a (addresses validators)
      → a ≢ v.address
      → NotIn a (addresses (validators ++ (v ∷ [])))
  NotIn-append a [] v n d = (d, tt)
  NotIn-append a (w ∷ validators) v n d = (n.0, NotIn-append a validators v n.1 d)

  Distinct-append :
      (validators : List (ValidatorStake floats.Float)) (v : ValidatorStake floats.Float)
      → Distinct (addresses validators)
      → NotIn v.address (addresses validators)
      → Distinct (addresses (validators ++ (v ∷ [])))
  Distinct-append [] v u n = (tt, tt)
  Distinct-append (w ∷ validators) v u n = (
    NotIn-append w.address validators v u.0 (λ e. n.0 (sym e)),
    Distinct-append validators v u.1 n.1,
  )

  pub append-IsRoll :
      (validators : List (ValidatorStake floats.Float)) (v : ValidatorStake floats.Float)
      → is_registered floats v.address validators ≡ false
      → [] ≢ v.address
      → IsRoll validators
      → IsRoll (validators ++ (v ∷ []))
  append-IsRoll validators v r n w = record {
    distinct = Distinct-append validators v w.distinct (is_registered-NotIn v.address validators r);
    named = NotIn-append [] validators v w.named n;
  }

  pub NotIn-remove :
      (a address : Bytes) (validators : List (ValidatorStake floats.Float))
      → NotIn a (addresses validators)
      → NotIn a (addresses (remove_validator floats address validators))
  unfolding remove_validator
  NotIn-remove a address [] n = tt
  NotIn-remove a address (v ∷ validators) n =
      let rest = NotIn-remove a address validators n.1 in
      elim (v.address == address)
        as (λ b. NotIn a (
          addresses (
            if b
            then remove_validator floats address validators
            else v ∷ remove_validator floats address validators))) [
              | true ↦ rest
              | false ↦ (n.0, rest)
            ]

  pub Distinct-remove :
      (address : Bytes) (validators : List (ValidatorStake floats.Float))
      → Distinct (addresses validators)
      → Distinct (addresses (remove_validator floats address validators))
  unfolding remove_validator
  Distinct-remove address [] u = tt
  Distinct-remove address (v ∷ validators) u =
      let rest = Distinct-remove address validators u.1 in
      elim (v.address == address)
        as (λ b. Distinct (
          addresses (
            if b
            then remove_validator floats address validators
            else v ∷ remove_validator floats address validators))) [
              | true ↦ rest
              | false ↦ (NotIn-remove v.address address validators u.0, rest)
            ]

  pub addresses-update :
      (address : Bytes) (f : ValidatorStake floats.Float → ValidatorStake floats.Float)
      (validators : List (ValidatorStake floats.Float))
      → ((v : ValidatorStake floats.Float) → (f v).address ≡ v.address)
      → addresses (update floats address f validators) ≡ addresses validators
  unfolding update
  addresses-update address f [] h = refl
  addresses-update address f (v ∷ validators) h =
      let rest = addresses-update address f validators h in
      elim (v.address == address)
        as (λ b.
          addresses (if b then f v ∷ validators else v ∷ update floats address f validators)
          ≡ v.address ∷ addresses validators) [
            | true ↦ ap (λ a. a ∷ addresses validators) (h v)
            | false ↦ ap (λ list. v.address ∷ list) rest
          ]

  pub same_addresses-IsRoll :
      (validators changed : List (ValidatorStake floats.Float))
      → addresses changed ≡ addresses validators
      → IsRoll validators
      → IsRoll changed
  same_addresses-IsRoll validators changed e w = record {
    distinct = subst (λ list. Distinct list) (sym e) w.distinct;
    named = subst (λ list. NotIn [] list) (sym e) w.named;
  }
