-- ===== src/Transaction/Verify/Accepted.antt =====
-- What `verify` accepts.
use mermai_blockchain.Base.{
  ℕ, ◌+◌, ◌≤◌, ◌≡◌, refl, ◌≢◌, ◌↔◌, true, List, [], ◌∷◌, sym, All-map, map, arith, length, All,
}
use mermai_blockchain.Base.Words.{IsU64, add64}
use mermai_blockchain.Base.Key.{Bytes, bytes_key, nat_key, pair_key}
use mermai_blockchain.Base.Set.{NotIn, Distinct, member-eq-false, NotIn-member}
use mermai_blockchain.Crypto.{Crypto}
use mermai_blockchain.Wire.{max_transaction_inputs, max_transaction_outputs}
use mermai_blockchain.Transaction.{TxInput, TxOutput, Transaction}
use mermai_blockchain.Transaction.Verify.{
  Outpoint, outpoint, unsigned_transaction_payload, distinct_spends, valid_outputs,
  valid_signatures, verify_transaction,
}

-- The exact sum of the amounts.
abbrev pub total_amount : List TxOutput → ℕ
total_amount [] = 0
total_amount (o ∷ outputs) = o.amount + total_amount outputs

abbrev pub IsSignedBy : Crypto → Bytes → TxInput → Type 0
IsSignedBy crypto payload i =
    (i.signature ≢ [])
    × (i.public_key ≢ [])
    × (crypto.parses_key i.public_key ≡ true)
    × (crypto.digest_verify i.public_key payload i.signature ≡ true)

pub record IsValidTransaction (crypto : Crypto) (now : ℕ) (tx : Transaction) : Type 0 where
  pub named : tx.id ≢ []
  pub has_inputs : tx.inputs ≢ []
  pub has_outputs : tx.outputs ≢ []
  pub few_inputs : length tx.inputs ≤ max_transaction_inputs
  pub few_outputs : length tx.outputs ≤ max_transaction_outputs
  pub timely : tx.timestamp ≤ add64 now 120
  pub sources_named : All (λ i. i.prev_tx_hash ≢ []) tx.inputs
  pub no_double_spend : Distinct (map outpoint tx.inputs)
  pub outputs_paid : All (λ o. (o.address ≢ []) × (o.amount ≢ 0)) tx.outputs
  pub total_range : IsU64 (total_amount tx.outputs)
  pub signed : All (IsSignedBy crypto (unsigned_transaction_payload tx)) tx.inputs

-- None of the outpoints is spent.
abbrev Unspent : List Outpoint → List Outpoint → Type 0
Unspent spent points = All (λ p. NotIn p spent) points

distinct_spends_sound :
    (spent : List Outpoint) (inputs : List TxInput)
    → distinct_spends spent inputs ≡ true
    → All (λ i. i.prev_tx_hash ≢ []) inputs
      × Unspent spent (map outpoint inputs)
      × Distinct (map outpoint inputs)
unfolding distinct_spends
distinct_spends_sound spent [] h = (tt, tt, tt)
distinct_spends_sound spent (i ∷ inputs) h =
    let rest = distinct_spends_sound (outpoint i ∷ spent) inputs (ground arith) in
    (
      (ground arith, rest.0),
      (
        member-eq-false (outpoint i) spent (ground arith),
        All-map (λ p u. u.1) (map outpoint inputs) rest.1,
      ),
      (All-map (λ p u e. u.0 (sym e)) (map outpoint inputs) rest.1, rest.2),
    )

Unspent-extend :
    (s : Outpoint) (spent points : List Outpoint)
    → NotIn s points
    → Unspent spent points
    → Unspent (s ∷ spent) points
Unspent-extend s spent [] n u = tt
Unspent-extend s spent (p ∷ points) n u =
    ((λ e. n.0 (sym e), u.0), Unspent-extend s spent points n.1 u.1)

distinct_spends_complete :
    (spent : List Outpoint) (inputs : List TxInput)
    → All (λ i. i.prev_tx_hash ≢ []) inputs
    → Unspent spent (map outpoint inputs)
    → Distinct (map outpoint inputs)
    → distinct_spends spent inputs ≡ true
unfolding distinct_spends
distinct_spends_complete spent [] n u d = refl
distinct_spends_complete spent (i ∷ inputs) n u d =
    let unspent = Unspent-extend (outpoint i) spent (map outpoint inputs) d.0 u.1 in
    ground (
      arith,
      NotIn-member (outpoint i) spent u.0,
      distinct_spends_complete (outpoint i ∷ spent) inputs n.1 unspent d.1,
    )

Unspent-nil : (points : List Outpoint) → Unspent [] points
Unspent-nil [] = tt
Unspent-nil (p ∷ points) = (tt, Unspent-nil points)

valid_outputs_sound :
    (total : ℕ) (outputs : List TxOutput)
    → IsU64 total
    → valid_outputs total outputs ≡ true
    → All (λ o. (o.address ≢ []) × (o.amount ≢ 0)) outputs × IsU64 (total + total_amount outputs)
unfolding valid_outputs
valid_outputs_sound total [] w h = (tt, omega arith)
valid_outputs_sound total (o ∷ outputs) w h =
    ground (arith, valid_outputs_sound (add64 total o.amount) outputs)

valid_outputs_complete :
    (total : ℕ) (outputs : List TxOutput)
    → All (λ o. (o.address ≢ []) × (o.amount ≢ 0)) outputs
    → IsU64 (total + total_amount outputs)
    → valid_outputs total outputs ≡ true
unfolding valid_outputs
valid_outputs_complete total [] p w = refl
valid_outputs_complete total (o ∷ outputs) p w =
    ground (arith, valid_outputs_complete (add64 total o.amount) outputs p.1)

valid_signatures_sound :
    (crypto : Crypto) (payload : Bytes) (inputs : List TxInput)
    → valid_signatures crypto payload inputs ≡ true
    → All (IsSignedBy crypto payload) inputs
unfolding valid_signatures
valid_signatures_sound crypto payload [] h = tt
valid_signatures_sound crypto payload (i ∷ inputs) h =
    ground (arith, valid_signatures_sound crypto payload inputs)

valid_signatures_complete :
    (crypto : Crypto) (payload : Bytes) (inputs : List TxInput)
    → All (IsSignedBy crypto payload) inputs
    → valid_signatures crypto payload inputs ≡ true
unfolding valid_signatures
valid_signatures_complete crypto payload [] p = refl
valid_signatures_complete crypto payload (i ∷ inputs) p =
    ground (arith, valid_signatures_complete crypto payload inputs p.1)

-- `verify` accepts exactly the transactions that have an id, inputs and outputs within the limits
-- and a timestamp at most 120 seconds ahead, that spend no output twice, that pay a nonzero amount
-- to a named address in each output, with a sum that fits 64 bits, and whose every input carries
-- a parsable key and its valid signature of the payload without signatures.
pub verify_transaction_iff :
    (crypto : Crypto) (now : ℕ) (tx : Transaction)
    → (verify_transaction crypto now tx ≡ true) ↔ IsValidTransaction crypto now tx
unfolding verify_transaction
verify_transaction_iff crypto now tx = (
  λ h.
      let spends = distinct_spends_sound [] tx.inputs (ground arith) in
      let outputs = valid_outputs_sound 0 tx.outputs (omega arith) (ground arith) in
      record {
        named = ground arith;
        has_inputs = ground arith;
        has_outputs = ground arith;
        few_inputs = ground arith;
        few_outputs = ground arith;
        timely = ground arith;
        sources_named = spends.0;
        no_double_spend = spends.2;
        outputs_paid = outputs.0;
        total_range = omega arith;
        signed =
            valid_signatures_sound crypto (unsigned_transaction_payload tx) tx.inputs
              (ground arith);
      },
  λ v. ground (
    arith,
    v.few_inputs,
    v.few_outputs,
    v.timely,
    v.named,
    v.has_inputs,
    v.has_outputs,
    distinct_spends_complete [] tx.inputs v.sources_named (Unspent-nil _) v.no_double_spend,
    valid_outputs_complete 0 tx.outputs v.outputs_paid (omega (arith, v.total_range)),
    valid_signatures_complete crypto (unsigned_transaction_payload tx) tx.inputs v.signed,
  ),
)
