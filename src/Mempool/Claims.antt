-- ===== src/Mempool/Claims.antt =====
-- The outputs that the pool's transactions spend, and its pending set.
use mermai_blockchain.Base.{
  ℕ, ◌≤◌, ◌<◌, ◌≡◌, refl, false, ◌⊎◌, none, some, List, [], ◌∷◌, arith, leb, length, if◌then◌else◌,
  Bool-cases, Option-cases, inl, inr,
}
use mermai_blockchain.Base.Key.{Bytes, bytes_key, nat_key, pair_key}
use mermai_blockchain.Base.Map.{
  find, contains, sum_by, length-erase-le, contains-eq-false, length-insert, length-erase-lt,
  contains-eq-true, find-erase,
}
use mermai_blockchain.Base.Map.Unique.{
  IsUnique, IsUnique-insert, IsUnique-erase, sum_by-erase, sum_by-insert_absent, find-eq-none_of,
}
use mermai_blockchain.Base.Set.{member}
use mermai_blockchain.Crypto.{Crypto}
use mermai_blockchain.Transaction.{TxInput, Transaction}
use mermai_blockchain.Transaction.Verify.{Outpoint, outpoint}
use mermai_blockchain.Mempool.{
  Mempool, new_mempool, has_conflict, release, lowest, pool_id, drop_entry, enter, make_room,
  add_transaction, remove_transaction, Call, adds, removes, clears, apply, run,
}
use mermai_blockchain.Mempool.Lowest.{lowest_found}
use mermai_blockchain.Mempool.Pending.{spender, member-claim, member-release, conflict_free}

-- How the pool stands between calls: an output is pending exactly if a transaction of the pool
-- spends it, at most one does, no id stands twice, and the pool is no larger than its capacity.
pub record IsConsistent (p : Mempool) : Type 0 where
  pub claims :
      (o : Outpoint)
      → sum_by (spender o) p.transactions ≡ (if member o p.pending_utxos then 1 else 0)
  pub unique : IsUnique p.transactions
  pub bounded : length p.transactions ≤ p.max_capacity

drop_entry-IsConsistent :
    (tx_id : Bytes) (tx : Transaction) (p : Mempool)
    → find tx_id p.transactions ≡ some tx
    → IsConsistent p
    → IsConsistent (drop_entry tx_id tx p)
unfolding drop_entry
drop_entry-IsConsistent tx_id tx p f v = record {
  claims = λ o. ground (
    arith,
    v.claims o,
    member-release o tx.inputs p.pending_utxos,
    sum_by-erase (spender o) tx_id tx p.transactions v.unique f,
  );
  unique = IsUnique-erase tx_id p.transactions v.unique;
  bounded = omega (arith, length-erase-le tx_id p.transactions, v.bounded);
}

enter-IsConsistent :
    (tx_id : Bytes) (tx : Transaction) (p : Mempool)
    → find tx_id p.transactions ≡ none
    → has_conflict tx.inputs p.pending_utxos ≡ false
    → length p.transactions < p.max_capacity
    → IsConsistent p
    → IsConsistent (enter tx_id tx p)
unfolding enter
enter-IsConsistent tx_id tx p f free room v = record {
  claims = λ o. ground (
    arith,
    v.claims o,
    member-claim o tx.inputs p.pending_utxos,
    conflict_free o tx.inputs p.pending_utxos free,
    sum_by-insert_absent (spender o) tx_id tx p.transactions f,
  );
  unique = IsUnique-insert tx_id tx p.transactions v.unique;
  bounded =
      ground
        (arith, length-insert tx_id tx p.transactions, contains-eq-false tx_id p.transactions f);
}

-- What `make_room` may have done: nothing, below the capacity, or the removal of one transaction
-- of the pool with a lower fee.
make_room_cases :
    (fee : ℕ) (p q : Mempool)
    → IsUnique p.transactions
    → make_room fee p ≡ some q
    → ((q ≡ p) × (length p.transactions < p.max_capacity))
      ⊎ ((k : Bytes) × (t : Transaction) × (lowest p.transactions ≡ some (k, t))
          × (find k p.transactions ≡ some t)
          × (t.fee < fee)
          × (q ≡ drop_entry k t p))
unfolding make_room
make_room_cases fee p q u h = elim (Bool-cases (leb p.max_capacity (length p.transactions))) [
  | inr room ↦ inl (ground arith, ground arith)
  | inl full ↦ (elim (Option-cases (lowest p.transactions)) [
    | inl nothing ↦ absurd (ground arith)
    | inr (e, found) ↦
        inr (e.0, e.1, found, lowest_found p.transactions e u found, ground arith, ground arith)
  ])
]

has_conflict-release :
    (gone inputs : List TxInput) (pending : List Outpoint)
    → has_conflict inputs pending ≡ false
    → has_conflict inputs (release gone pending) ≡ false
unfolding has_conflict
has_conflict-release gone [] pending h = refl
has_conflict-release gone (i ∷ inputs) pending h =
    ground
      (arith, has_conflict-release gone inputs pending, member-release (outpoint i) gone pending)

find_after_drop :
    (tx_id k : Bytes) (t : Transaction) (p : Mempool)
    → find tx_id p.transactions ≡ none
    → find tx_id (drop_entry k t p).transactions ≡ none
unfolding drop_entry
find_after_drop tx_id k t p h = ground (arith, find-erase tx_id k p.transactions)

conflict_after_drop :
    (inputs : List TxInput) (k : Bytes) (t : Transaction) (p : Mempool)
    → has_conflict inputs p.pending_utxos ≡ false
    → has_conflict inputs (drop_entry k t p).pending_utxos ≡ false
unfolding drop_entry
conflict_after_drop inputs k t p h = has_conflict-release t.inputs inputs p.pending_utxos h

room_after_drop :
    (k : Bytes) (t : Transaction) (p : Mempool)
    → find k p.transactions ≡ some t
    → length p.transactions ≤ p.max_capacity
    → length (drop_entry k t p).transactions < (drop_entry k t p).max_capacity
unfolding drop_entry
room_after_drop k t p f b =
    omega (arith, length-erase-lt k p.transactions (contains-eq-true k t p.transactions f))

enter-make_room-IsConsistent :
    (tx_id : Bytes) (tx : Transaction) (p q : Mempool)
    → find tx_id p.transactions ≡ none
    → has_conflict tx.inputs p.pending_utxos ≡ false
    → make_room tx.fee p ≡ some q
    → IsConsistent p
    → IsConsistent (enter tx_id tx q)
enter-make_room-IsConsistent tx_id tx p q f free room v =
    elim (make_room_cases tx.fee p q v.unique room) [
      | inl (same, below) ↦ rw same (enter-IsConsistent tx_id tx p f free below v)
      | inr (k, t, _, found, _, dropped) ↦ rw dropped (
          enter-IsConsistent tx_id tx (drop_entry k t p) (find_after_drop tx_id k t p f)
            (conflict_after_drop tx.inputs k t p free) (room_after_drop k t p found v.bounded)
            (drop_entry-IsConsistent k t p found v))
    ]

add_transaction-IsConsistent :
    (crypto : Crypto) (tx : Transaction) (p : Mempool)
    → IsConsistent p
    → IsConsistent (add_transaction crypto tx p).0
unfolding add_transaction
add_transaction-IsConsistent crypto tx p v =
    let tx_id = pool_id crypto tx in
    elim (Bool-cases (contains tx_id p.transactions)) [
      | inl known ↦ rw known v
      | inr new ↦ (elim (Bool-cases (has_conflict tx.inputs p.pending_utxos)) [
        | inl conflict ↦ rw (new, conflict) v
        | inr free ↦ (elim (Option-cases (make_room tx.fee p)) [
          | inl full ↦ rw (new, free, full) v
          | inr (q, room) ↦
              rw (new, free, room)
                (enter-make_room-IsConsistent tx_id tx p q
                  (find-eq-none_of tx_id p.transactions new) free room v)
        ])
      ])
    ]

remove_transaction-IsConsistent :
    (tx_id : Bytes) (p : Mempool) → IsConsistent p → IsConsistent (remove_transaction tx_id p).0
unfolding remove_transaction
remove_transaction-IsConsistent tx_id p v = elim (Option-cases (find tx_id p.transactions)) [
  | inl missing ↦ rw (missing, remove_transaction) v
  | inr (tx, found) ↦ rw (found, remove_transaction) (drop_entry-IsConsistent tx_id tx p found v)
]

empty-IsConsistent : (p : Mempool) → p.transactions ≡ [] → p.pending_utxos ≡ [] → IsConsistent p
unfolding sum_by member
empty-IsConsistent p t u = record {
  claims = λ o. rw (t, u) refl;
  unique = rw t tt;
  bounded = rw t (omega arith);
}

apply-IsConsistent :
    (crypto : Crypto) (p : Mempool) (c : Call) → IsConsistent p → IsConsistent (apply crypto p c)
unfolding apply
apply-IsConsistent crypto p (adds tx) v = add_transaction-IsConsistent crypto tx p v
apply-IsConsistent crypto p (removes tx_id) v = remove_transaction-IsConsistent tx_id p v
apply-IsConsistent crypto p clears v = empty-IsConsistent _ refl refl

run-IsConsistent :
    (crypto : Crypto) (p : Mempool) (cs : List Call)
    → IsConsistent p
    → IsConsistent (run crypto p cs)
unfolding run
run-IsConsistent crypto p [] v = v
run-IsConsistent crypto p (c ∷ cs) v =
    run-IsConsistent crypto (apply crypto p c) cs (apply-IsConsistent crypto p c v)

-- After any sequence of calls on a new pool, an output is pending exactly if a transaction of the
-- pool spends it, no output is spent by two of its transactions, no id stands twice, and the pool
-- holds no more transactions than its capacity.
pub run-new_mempool-IsConsistent :
    (crypto : Crypto) (capacity : ℕ) (cs : List Call)
    → IsConsistent (run crypto (new_mempool capacity) cs)
run-new_mempool-IsConsistent crypto capacity cs =
    run-IsConsistent crypto (new_mempool capacity) cs
      (unfold new_mempool in empty-IsConsistent (new_mempool capacity) refl refl)
