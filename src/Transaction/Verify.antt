-- ===== src/Transaction/Verify.antt =====
-- `mermai_transaction::verify` and `mermai_transaction::sign`.
pub mod Accepted
pub mod Signing
use mermai_blockchain.Base.{
  ℕ, zero, suc, ◌+◌, ◌-◌, Bool, true, false, ◌||◌, not, Option, none, some, List, [], ◌∷◌, map, ltb,
  leb, length, is_empty, if◌then◌else◌,
}
use mermai_blockchain.Base.Words.{u64_max, add64}
use mermai_blockchain.Base.Key.{Bytes, bytes_key, nat_key, pair_key, ◌==◌}
use mermai_blockchain.Base.Set.{member}
use mermai_blockchain.Crypto.{Crypto}
use mermai_blockchain.Wire.{max_transaction_inputs, max_transaction_outputs}
use mermai_blockchain.Transaction.{TxInput, TxOutput, Transaction, serialize_transaction}

-- The output that an input spends.
abbrev pub Outpoint : Type 0
Outpoint = Bytes × ℕ

abbrev pub outpoint : TxInput → Outpoint
outpoint i = (i.prev_tx_hash, i.prev_output_idx)

abbrev pub clear_signature : TxInput → TxInput
clear_signature i = record i { signature = [] }

-- `unsigned_transaction_payload`
unfoldable pub unsigned_transaction_payload : Transaction → Bytes
unsigned_transaction_payload tx =
    serialize_transaction (record tx { inputs = map clear_signature tx.inputs })

-- The loop over the inputs, with the set `spent_outputs`.
unfoldable pub distinct_spends : List Outpoint → List TxInput → Bool
unfolding member
distinct_spends spent [] = true
distinct_spends spent (i ∷ inputs) =
    if is_empty i.prev_tx_hash || member (outpoint i) spent
    then false
    else distinct_spends (outpoint i ∷ spent) inputs

-- The loop over the outputs, with `total_outputs`.
unfoldable pub valid_outputs : ℕ → List TxOutput → Bool
valid_outputs total [] = true
valid_outputs total (o ∷ outputs) =
    if is_empty o.address || (o.amount == 0 || ltb (u64_max - total) o.amount)
    then false
    else valid_outputs (add64 total o.amount) outputs

-- The loop that checks each input's signature of the payload.
unfoldable pub valid_signatures : Crypto → Bytes → List TxInput → Bool
valid_signatures crypto payload [] = true
valid_signatures crypto payload (i ∷ inputs) =
    if is_empty i.signature || is_empty i.public_key
    then false
    else if not (crypto.parses_key i.public_key)
    then false
    else if not (crypto.digest_verify i.public_key payload i.signature)
    then false
    else valid_signatures crypto payload inputs

-- `verify`, at the time `now`.
unfoldable pub verify_transaction : Crypto → ℕ → Transaction → Bool
unfolding distinct_spends valid_outputs valid_signatures
verify_transaction crypto now tx =
    if is_empty tx.id || (is_empty tx.inputs || is_empty tx.outputs)
    then false
    else if ltb max_transaction_inputs (length tx.inputs)
        || ltb max_transaction_outputs (length tx.outputs)
    then false
    else if ltb (add64 now 120) tx.timestamp
    then false
    else if not (distinct_spends [] tx.inputs)
    then false
    else if not (valid_outputs 0 tx.outputs)
    then false
    else valid_signatures crypto (unsigned_transaction_payload tx) tx.inputs

module _ {A : Type 0} where
  -- `inputs[index]` is changed in place.
  unfoldable pub update_at : (A → A) → ℕ → List A → List A
  update_at f index [] = []
  update_at f zero (x ∷ xs) = f x ∷ xs
  update_at f (suc index) (x ∷ xs) = x ∷ update_at f index xs

-- `if (inputs[input_idx].public_key.empty())` take the key's public part, if there is one.
abbrev pub fill_public_key : Crypto → Bytes → TxInput → TxInput
fill_public_key crypto private_key i =
    if is_empty i.public_key
    then (elim (crypto.public_key_of private_key) [
      | none ↦ i
      | some public_key ↦ record i { public_key = public_key }
    ])
    else i

-- `sign`. No private key is the null pointer.
unfoldable pub sign_transaction : Crypto → ℕ → Option Bytes → Transaction → Transaction × Bool
unfolding update_at
sign_transaction crypto input_idx none tx = (tx, false)
sign_transaction crypto input_idx (some private_key) tx =
    let prepared = record tx {
      inputs =
          update_at (λ i. clear_signature (fill_public_key crypto private_key i)) input_idx
            tx.inputs;
    } in
    if leb (length tx.inputs) input_idx
    then (tx, false)
    else (elim (crypto.digest_sign private_key (unsigned_transaction_payload prepared)) [
      | none ↦ (prepared, false)
      | some signature ↦ (
        record prepared {
          inputs = update_at (λ i. record i { signature = signature }) input_idx prepared.inputs;
        },
        true,
      )
    ])
