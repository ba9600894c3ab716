-- ===== src/Database/Ledger/Conservation.antt =====
-- The value of the abstract ledger: what a settled block creates and what it destroys.
use mermai_blockchain.Base.{
  ℕ, ◌+◌, ◌≡◌, some, List, [], ◌∷◌, arith, is_empty, Bool-cases, Option-cases, inl, inr,
  if◌then◌else◌,
}
use mermai_blockchain.Base.Key.{Bytes, bytes_key, nat_key, pair_key}
use mermai_blockchain.Base.Map.{find, insert, erase, sum_by, find-erase}
use mermai_blockchain.Base.Map.Unique.{
  sum_by-erase, sum_by-insert_absent, IsUnique, IsUnique-insert, IsUnique-erase,
}
use mermai_blockchain.Crypto.{Crypto}
use mermai_blockchain.Transaction.{TxInput, TxOutput, Transaction}
use mermai_blockchain.Transaction.Verify.{Outpoint}
use mermai_blockchain.Database.{c_string}
use mermai_blockchain.Database.Store.{id_of}
use mermai_blockchain.Database.Ledger.{
  Ledger, spent_by, owned_value, spend_all, create_all, value_of, settle, settle_all,
}

-- The sum of all amounts.
unfoldable pub total_value : Ledger → ℕ
unfolding sum_by
total_value ledger = sum_by (λ output. output.1) ledger

-- Each output of the first ledger stands in the second.
abbrev Within : Ledger → Ledger → Type 0
Within small ledger =
    (k : Outpoint) (v : Bytes × ℕ) → find k small ≡ some v → find k ledger ≡ some v

Within-erase :
    (k : Outpoint) (small ledger : Ledger) → Within small ledger → Within (erase k small) ledger
Within-erase k small ledger h j v e = ground (arith, find-erase j k small, h j v)

owned_value_step :
    (crypto : Crypto) (i : TxInput) (inputs : List TxInput) (total : ℕ) (output : Bytes × ℕ)
    (ledger : Ledger)
    → owned_value crypto ledger (i ∷ inputs) ≡ some total
    → find (spent_by i) ledger ≡ some output
    → (rest : ℕ) × (owned_value crypto ledger inputs ≡ some rest) × (total ≡ output.1 + rest)
unfolding owned_value
owned_value_step crypto i inputs total output ledger v found =
    elim (Option-cases (owned_value crypto ledger inputs)) [
      | inl missing ↦ ground (arith, v, found, missing)
      | inr (rest, owned) ↦ (rest, owned, ground (arith, v, found, owned))
    ]

spend_all_value :
    (crypto : Crypto) (inputs : List TxInput) (total : ℕ) (ledger small next : Ledger)
    → Within small ledger
    → IsUnique small
    → owned_value crypto ledger inputs ≡ some total
    → spend_all inputs small ≡ some next
    → (total_value next + total ≡ total_value small) × IsUnique next
unfolding owned_value spend_all total_value
spend_all_value crypto [] total ledger small next h u v e =
    let same : small ≡ next = cc in
    let none_spent : 0 ≡ total = cc in (rw⁻¹ (same, none_spent) (omega arith), rw⁻¹ same u)
spend_all_value crypto (i ∷ inputs) total ledger small next h u v e =
    elim (Option-cases (find (spent_by i) small)) [
      | inl missing ↦ ground (arith, e, missing)
      | inr (output, found) ↦
          let (rest, owned, sum) =
            owned_value_step crypto i inputs total output ledger v (h _ _ found) in
          let (value, unique) =
            spend_all_value crypto inputs rest ledger (erase (spent_by i) small) next
              (λ j x k. Within-erase (spent_by i) small ledger h j x k)
              (IsUnique-erase (spent_by i) small u) owned (ground (arith, e, found)) in
          (
            omega (arith, value, sum, sum_by-erase (λ o. o.1) (spent_by i) output small u found),
            unique,
          )
    ]

create_all_value :
    (tx_id : Bytes) (index : ℕ) (outputs : List TxOutput) (ledger next : Ledger)
    → IsUnique ledger
    → create_all tx_id index outputs ledger ≡ some next
    → (total_value next ≡ total_value ledger + value_of outputs) × IsUnique next
unfolding create_all total_value value_of
create_all_value tx_id index [] ledger next u e =
    let same : ledger ≡ next = cc in (rw⁻¹ same (omega arith), rw⁻¹ same u)
create_all_value tx_id index (o ∷ outputs) ledger next u e =
    elim (Option-cases (find (tx_id, index) ledger)) [
      | inr (output, taken) ↦ ground (arith, e, taken)
      | inl fresh ↦
          let after = insert (tx_id, index) (c_string o.address, o.amount) ledger in
          let (total, unique) =
            create_all_value tx_id (index + 1) outputs after next
              (IsUnique-insert (tx_id, index) (c_string o.address, o.amount) ledger u)
              (ground (arith, e, fresh)) in
          (
            omega (
              arith,
              total,
              sum_by-insert_absent (λ output. output.1) (tx_id, index)
                  (c_string o.address, o.amount) ledger fresh,
            ),
            unique,
          )
    ]

-- What a transaction is worth to the ledger: with inputs it destroys its fee, and without inputs it
-- creates its outputs.
unfoldable pub created : List Transaction → ℕ
unfolding value_of
created [] = 0
created (tx ∷ txs) = (if is_empty tx.inputs then value_of tx.outputs else 0) + created txs

unfoldable pub fees : List Transaction → ℕ
fees [] = 0
fees (tx ∷ txs) = (if is_empty tx.inputs then 0 else tx.fee) + fees txs

settle_value :
    (crypto : Crypto) (now : ℕ) (tx : Transaction) (ledger next : Ledger)
    → IsUnique ledger
    → settle crypto now tx ledger ≡ some next
    → (total_value next + (if is_empty tx.inputs then 0 else tx.fee + value_of tx.outputs)
        ≡ total_value ledger)
      × IsUnique next
unfolding settle
settle_value crypto now tx ledger next u e = elim (Bool-cases (is_empty tx.inputs)) [
  | inl free ↦
      let same : ledger ≡ next = ground (arith, e, free) in rw⁻¹ same (rw free (omega arith, u))
  | inr paying ↦ (elim (Option-cases (owned_value crypto ledger tx.inputs)) [
    | inl unowned ↦ ground (arith, e, paying, unowned)
    | inr (total, owned) ↦
        let exact : total ≡ tx.fee + value_of tx.outputs = ground (arith, e, paying, owned) in
        let spent : spend_all tx.inputs ledger ≡ some next = ground (arith, e, paying, owned) in
        rw (paying, ← exact)
          (spend_all_value crypto tx.inputs total ledger ledger next (λ j x k. k) u owned spent)
  ])
]

pub settle_all_value :
    (crypto : Crypto) (now : ℕ) (txs : List Transaction) (ledger next : Ledger)
    → IsUnique ledger
    → settle_all crypto now txs ledger ≡ some next
    → (total_value next + fees txs ≡ total_value ledger + created txs) × IsUnique next
unfolding settle_all fees created
settle_all_value crypto now [] ledger next u e =
    let same : ledger ≡ next = cc in (rw⁻¹ same (omega arith), rw⁻¹ same u)
settle_all_value crypto now (tx ∷ txs) ledger next u e =
    elim (Option-cases (settle crypto now tx ledger)) [
      | inl refused ↦ ground (arith, e, refused)
      | inr (spent, settled) ↦
          (elim (Option-cases (create_all (c_string (id_of crypto tx)) 0 tx.outputs spent)) [
            | inl taken ↦ ground (arith, e, settled, taken)
            | inr (after, made) ↦
                let (first, spent_unique) = settle_value crypto now tx ledger spent u settled in
                let (second, after_unique) =
                  create_all_value (c_string (id_of crypto tx)) 0 tx.outputs spent after
                    spent_unique made in
                let (third, unique) =
                  settle_all_value crypto now txs after next after_unique
                    (ground (arith, e, settled, made)) in
                (ground (arith, first, second, third), unique)
          ])
    ]
