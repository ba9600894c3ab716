-- ===== src/Mempool.antt =====
-- The transaction pool: include/mermai/mermai_mempool.hpp and src/core/mermai_mempool.cpp. Each
-- method holds the pool's mutex from its first line to its last, so it is one step.
pub mod Lowest
pub mod Pending
pub mod Claims
mod Tests
use mermai_blockchain.Base.{
  ℕ, zero, suc, ◌+◌, ◌/◌, Bool, true, false, Option, none, some, List, [], ◌∷◌, map, ltb, leb,
  length, take, get_or, is_empty, if◌then◌else◌,
}
use mermai_blockchain.Base.Key.{Bytes, bytes_key, nat_key, pair_key}
use mermai_blockchain.Base.Map.{Map, find, contains, insert, erase, values}
use mermai_blockchain.Base.Set.{member, add, remove}
use mermai_blockchain.Crypto.{Crypto}
use mermai_blockchain.Transaction.{TxInput, Transaction, transaction_hash}
use mermai_blockchain.Transaction.Verify.{Outpoint, outpoint}

pub record Mempool : Type 0 where
  pub max_capacity : ℕ
  pub transactions : Map Bytes Transaction
  pub pending_utxos : List Outpoint
  pub pending_nonces : Map Bytes ℕ

-- The constructor.
unfoldable pub new_mempool : ℕ → Mempool
new_mempool capacity = record {
  max_capacity = capacity;
  transactions = [];
  pending_utxos = [];
  pending_nonces = [];
}

-- The loop that looks for an input that is pending.
unfoldable pub has_conflict : List TxInput → List Outpoint → Bool
has_conflict [] pending = false
has_conflict (i ∷ inputs) pending =
    if member (outpoint i) pending then true else has_conflict inputs pending

-- The loop that records the inputs, and the one that erases them.
unfoldable pub claim : List TxInput → List Outpoint → List Outpoint
claim [] pending = pending
claim (i ∷ inputs) pending = claim inputs (add (outpoint i) pending)

unfoldable pub release : List TxInput → List Outpoint → List Outpoint
release [] pending = pending
release (i ∷ inputs) pending = release inputs (remove (outpoint i) pending)

-- `std::min_element` by fee: the first entry, in the order of the ids, of the lowest fee.
unfoldable pub lowest_from : Bytes × Transaction → Map Bytes Transaction → Bytes × Transaction
lowest_from best [] = best
lowest_from best (e ∷ entries) = lowest_from (if ltb e.1.fee best.1.fee then e else best) entries

unfoldable pub lowest : Map Bytes Transaction → Option (Bytes × Transaction)
unfolding lowest_from
lowest [] = none
lowest (e ∷ entries) = some (lowest_from e entries)

-- `tx.id.empty() ? tx.get_hash() : tx.id`
unfoldable pub pool_id : Crypto → Transaction → Bytes
pool_id crypto tx = if is_empty tx.id then transaction_hash crypto tx else tx.id

-- The transaction of an id is taken out with its pending inputs.
unfoldable pub drop_entry : Bytes → Transaction → Mempool → Mempool
unfolding release
drop_entry tx_id tx p = record p {
  transactions = erase tx_id p.transactions;
  pending_utxos = release tx.inputs p.pending_utxos;
}

-- The last lines of `add_transaction`.
unfoldable pub enter : Bytes → Transaction → Mempool → Mempool
unfolding claim
enter tx_id tx p = record p {
  transactions = insert tx_id tx p.transactions;
  pending_utxos = claim tx.inputs p.pending_utxos;
}

-- The part of `add_transaction` that makes room: none is the refusal of the new transaction.
unfoldable pub make_room : ℕ → Mempool → Option Mempool
unfolding lowest drop_entry
make_room fee p =
    if leb p.max_capacity (length p.transactions)
    then (elim (lowest p.transactions) [
      | none ↦ none
      | some e ↦ if ltb e.1.fee fee then some (drop_entry e.0 e.1 p) else none
    ])
    else some p

unfoldable pub add_transaction : Crypto → Transaction → Mempool → Mempool × Bool
unfolding pool_id has_conflict make_room enter
add_transaction crypto tx p =
    let tx_id = pool_id crypto tx in
    if contains tx_id p.transactions
    then (p, false)
    else if has_conflict tx.inputs p.pending_utxos
    then (p, false)
    else elim (make_room tx.fee p) [ none ↦ (p, false) | some q ↦ (enter tx_id tx q, true) ]

unfoldable pub remove_transaction : Bytes → Mempool → Mempool × Bool
unfolding drop_entry
remove_transaction tx_id p = elim (find tx_id p.transactions) [
  | none ↦ (p, false)
  | some tx ↦ (drop_entry tx_id tx p, true)
]

unfoldable pub has_transaction : Bytes → Mempool → Bool
has_transaction tx_id p = contains tx_id p.transactions

unfoldable pub clear : Mempool → Mempool
clear p = record p { transactions = []; pending_utxos = []; pending_nonces = [] }

unfoldable pub size : Mempool → ℕ
size p = length p.transactions

unfoldable pub is_utxo_spent : Bytes → ℕ → Mempool → Bool
is_utxo_spent tx_hash output_index p = member (tx_hash, output_index) p.pending_utxos

-- `std::sort`; where it leaves the order of equal elements open, they keep theirs.
module _ {A : Type 0} (before : A → A → Bool) where
  unfoldable pub place : A → List A → List A
  place a [] = a ∷ []
  place a (b ∷ sorted) = if before b a then b ∷ place a sorted else a ∷ b ∷ sorted

  unfoldable pub sort : List A → List A
  unfolding place
  sort [] = []
  sort (a ∷ items) = place a (sort items)

unfoldable pub get_transactions : ℕ → Mempool → List Transaction
unfolding sort
get_transactions limit p = take limit (sort (λ a b. ltb b.fee a.fee) (values p.transactions))

unfoldable pub get_median_fee : Mempool → ℕ
unfolding sort
get_median_fee p =
    let fees = sort (λ a b. ltb a b) (map (λ tx. tx.fee) (values p.transactions)) in
    if is_empty p.transactions then 1000 else get_or fees (length fees / 2) 0

-- The calls that change the pool.
pub data Call : Type 0 where
  adds : Transaction → Call
  removes : Bytes → Call
  clears : Call

unfoldable pub apply : Crypto → Mempool → Call → Mempool
unfolding add_transaction remove_transaction clear
apply crypto p (adds tx) = (add_transaction crypto tx p).0
apply crypto p (removes tx_id) = (remove_transaction tx_id p).0
apply crypto p clears = clear p

unfoldable pub run : Crypto → Mempool → List Call → Mempool
unfolding apply
run crypto p [] = p
run crypto p (c ∷ cs) = run crypto (apply crypto p c) cs
