-- ===== src/Mempool/Pending.antt =====
-- What claiming and releasing inputs does to the pending outputs.
use mermai_blockchain.Base.{ℕ, ◌≡◌, refl, Bool, true, false, List, [], ◌∷◌, arith, if◌then◌else◌}
use mermai_blockchain.Base.Key.{bytes_key, nat_key, pair_key, ◌==◌, pair_beq_iff}
use mermai_blockchain.Base.Set.{member, add, remove, member-add, member-remove}
use mermai_blockchain.Transaction.{TxInput, Transaction}
use mermai_blockchain.Transaction.Verify.{Outpoint, outpoint}
use mermai_blockchain.Mempool.{has_conflict, claim, release}

-- An input of the list spends the output.
unfoldable pub spends : Outpoint → List TxInput → Bool
spends o [] = false
spends o (i ∷ inputs) = if o == outpoint i then true else spends o inputs

abbrev pub spender : Outpoint → Transaction → ℕ
spender o tx = if spends o tx.inputs then 1 else 0

pub member-claim :
    (o : Outpoint) (inputs : List TxInput) (pending : List Outpoint)
    → member o (claim inputs pending) ≡ (if spends o inputs then true else member o pending)
unfolding spends claim
member-claim o [] pending = refl
member-claim o (i ∷ inputs) pending =
    ground
      (arith, member-claim o inputs (add (outpoint i) pending), member-add o (outpoint i) pending)

pub member-release :
    (o : Outpoint) (inputs : List TxInput) (pending : List Outpoint)
    → member o (release inputs pending) ≡ (if spends o inputs then false else member o pending)
unfolding spends release
member-release o [] pending = refl
member-release o (i ∷ inputs) pending = ground (
  arith,
  member-release o inputs (remove (outpoint i) pending),
  member-remove o (outpoint i) pending,
)

-- An input of a transaction without conflict is not pending.
pub conflict_free :
    (o : Outpoint) (inputs : List TxInput) (pending : List Outpoint)
    → has_conflict inputs pending ≡ false
    → spends o inputs ≡ true
    → member o pending ≡ false
unfolding spends has_conflict
conflict_free o [] pending h s = cc
conflict_free o (i ∷ inputs) pending h s =
    ground (arith, pair_beq_iff o (outpoint i), conflict_free o inputs pending)
