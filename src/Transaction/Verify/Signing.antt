-- ===== src/Transaction/Verify/Signing.antt =====
-- What `sign` does to the other inputs.
use mermai_blockchain.Base.{
  ℕ, zero, suc, ◌<◌, ◌≡◌, refl, ap, ◌∙◌, ◌≢◌, true, false, Option, some, List, [], ◌∷◌, map, arith,
  length, get_elem?, leb,
}
use mermai_blockchain.Base.Key.{Bytes}
use mermai_blockchain.Crypto.{Crypto}
use mermai_blockchain.Transaction.{TxInput, Transaction, serialize_transaction}
use mermai_blockchain.Transaction.Verify.{
  clear_signature, unsigned_transaction_payload, update_at, fill_public_key, sign_transaction,
}

-- The input already carries a public key.
abbrev pub IsPrepared : TxInput → Type 0
IsPrepared i = i.public_key ≢ []

length-update_at :
    (f : TxInput → TxInput) (k : ℕ) (xs : List TxInput) → length (update_at f k xs) ≡ length xs
unfolding update_at
length-update_at f k [] = refl
length-update_at f zero (x ∷ xs) = refl
length-update_at f (suc k) (x ∷ xs) = ap suc (length-update_at f k xs)

-- A change that `clear_signature` hides, at an input that is there.
map-update_at :
    (f : TxInput → TxInput) (k : ℕ) (i : TxInput) (xs : List TxInput)
    → get_elem? xs k ≡ some i
    → clear_signature (f i) ≡ clear_signature i
    → map clear_signature (update_at f k xs) ≡ map clear_signature xs
unfolding update_at
map-update_at f k i [] at h = refl
map-update_at f zero i (x ∷ xs) at h = ground arith
map-update_at f (suc k) i (x ∷ xs) at h = ap (◌∷◌ (clear_signature x)) (map-update_at f k i xs at h)

get_elem?-update_at_self :
    (f : TxInput → TxInput) (k : ℕ) (i : TxInput) (xs : List TxInput)
    → get_elem? xs k ≡ some i
    → get_elem? (update_at f k xs) k ≡ some (f i)
unfolding update_at
get_elem?-update_at_self f k i [] at = cc
get_elem?-update_at_self f zero i (x ∷ xs) at = ground arith
get_elem?-update_at_self f (suc k) i (x ∷ xs) at = get_elem?-update_at_self f k i xs at

get_elem?-update_at_ne :
    (f : TxInput → TxInput) (j k : ℕ) (xs : List TxInput)
    → j ≢ k
    → get_elem? (update_at f k xs) j ≡ get_elem? xs j
unfolding update_at
get_elem?-update_at_ne f j k [] ne = refl
get_elem?-update_at_ne f zero zero (x ∷ xs) ne = absurd (ne refl)
get_elem?-update_at_ne f zero (suc k) (x ∷ xs) ne = refl
get_elem?-update_at_ne f (suc j) zero (x ∷ xs) ne = refl
get_elem?-update_at_ne f (suc j) (suc k) (x ∷ xs) ne =
    get_elem?-update_at_ne f j k xs (λ e. ne (ap suc e))

get_elem?-lt : (k : ℕ) (i : TxInput) (xs : List TxInput) → get_elem? xs k ≡ some i → k < length xs
get_elem?-lt k i [] at = cc
get_elem?-lt zero i (x ∷ xs) at = omega arith
get_elem?-lt (suc k) i (x ∷ xs) at = omega (arith, get_elem?-lt k i xs at)

module _ (crypto : Crypto) (k : ℕ) (private_key signature : Bytes) (tx : Transaction) (i : TxInput)
    (at : get_elem? tx.inputs k ≡ some i) (prepared : IsPrepared i) where
  abbrev cleared : TxInput → TxInput
  cleared x = clear_signature (fill_public_key crypto private_key x)

  abbrev signed : TxInput → TxInput
  signed x = record x { signature = signature }

  cleared-prepared : clear_signature (cleared i) ≡ clear_signature i
  cleared-prepared = ground arith

  keeps_payload :
      map clear_signature (update_at cleared k tx.inputs) ≡ map clear_signature tx.inputs
  keeps_payload = map-update_at cleared k i tx.inputs at cleared-prepared

  keeps_signed_payload :
      map clear_signature (update_at signed k (update_at cleared k tx.inputs))
      ≡ map clear_signature tx.inputs
  keeps_signed_payload =
      map-update_at signed k (cleared i) (update_at cleared k tx.inputs)
        (get_elem?-update_at_self cleared k i tx.inputs at) refl
      ∙ keeps_payload

  signed_cleared :
      ◌≡◌ {A = Option TxInput}
        (some (signed (cleared i)))
        (some (record i { signature = signature }))
  signed_cleared = ground arith

  in_range : leb (length tx.inputs) k ≡ false
  in_range = ground (arith, get_elem?-lt k i tx.inputs at)

  sign_result :
      crypto.digest_sign private_key (unsigned_transaction_payload tx) ≡ some signature
      → sign_transaction crypto k (some private_key) tx
        ≡ (record tx { inputs = update_at signed k (update_at cleared k tx.inputs) }, true)
  unfolding sign_transaction unsigned_transaction_payload
  sign_result s = rw (keeps_payload, s, in_range)

  -- Signing an input that already carries its public key succeeds when the key signs the payload.
  -- It puts the signature into that input, leaves every other input alone, and does not change
  -- the payload, so signatures that were made before stay valid.
  pub sign-unsigned_transaction_payload :
      (j : ℕ)
      → j ≢ k
      → crypto.digest_sign private_key (unsigned_transaction_payload tx) ≡ some signature
      → ((sign_transaction crypto k (some private_key) tx).1 ≡ true)
        × (unsigned_transaction_payload (sign_transaction crypto k (some private_key) tx).0
            ≡ unsigned_transaction_payload tx)
        × (get_elem? (sign_transaction crypto k (some private_key) tx).0.inputs k
            ≡ some (record i { signature = signature }))
        × (get_elem? (sign_transaction crypto k (some private_key) tx).0.inputs j
            ≡ get_elem? tx.inputs j)
  unfolding unsigned_transaction_payload
  sign-unsigned_transaction_payload j ne s = rw (sign_result s) (
    refl,
    ap (λ inputs. serialize_transaction (record tx { inputs = inputs })) keeps_signed_payload,
    get_elem?-update_at_self signed k (cleared i) (update_at cleared k tx.inputs)
          (get_elem?-update_at_self cleared k i tx.inputs at)
        ∙ signed_cleared,
    get_elem?-update_at_ne signed j k (update_at cleared k tx.inputs) ne
        ∙ get_elem?-update_at_ne cleared j k tx.inputs ne,
  )
