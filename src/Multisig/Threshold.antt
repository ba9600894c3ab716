-- ===== src/Multisig/Threshold.antt =====
-- What an accepted multi-signature transaction carries.
use mermai_blockchain.Base.{
  ◌≤◌, ◌≡◌, refl, true, false, List, [], ◌∷◌, arith, length, All, Bool-cases, inl, inr, ◌⊎◌,
  if◌then◌else◌, ap,
}
use mermai_blockchain.Base.Key.{Bytes, bytes_key, bytes_beq_iff}
use mermai_blockchain.Base.Set.{member, NotIn, Distinct}
use mermai_blockchain.Crypto.{Crypto, hex_encode}
use mermai_blockchain.Multisig.{
  MultisigAccount, MultisigSignature, MultisigTx, multisig_signing_payload, counts, count_valid,
  verify_multisig_tx,
}

-- A key of the account, with a signature of the transaction that is valid for it.
pub record IsApproval (crypto : Crypto) (signers : List Bytes) (payload : Bytes)
    (sig : MultisigSignature) : Type 0 where
  pub is_signer : member sig.public_key signers ≡ true
  pub verifies : crypto.digest_verify sig.public_key payload sig.signature ≡ true

-- The list is what is left of another, in its order, after some entries are left out.
unfoldable pub IsPart : List MultisigSignature → List MultisigSignature → Type 0
IsPart [] whole = Unit
IsPart (s ∷ part) [] = ⊥
IsPart (s ∷ part) (t ∷ whole) = ((s ≡ t) × IsPart part whole) ⊎ IsPart (s ∷ part) whole

-- The public keys.
abbrev pub approvers : List MultisigSignature → List Bytes
approvers [] = []
approvers (sig ∷ sigs) = sig.public_key ∷ approvers sigs

-- The entries that the loop counts.
unfoldable counted :
    Crypto → List Bytes → Bytes → List Bytes → List MultisigSignature → List MultisigSignature
counted crypto signers payload seen [] = []
counted crypto signers payload seen (sig ∷ sigs) =
    if counts crypto signers payload seen sig
    then sig ∷ counted crypto signers payload (hex_encode sig.public_key ∷ seen) sigs
    else counted crypto signers payload seen sigs

IsPart-skip :
    (part whole : List MultisigSignature) (t : MultisigSignature)
    → IsPart part whole
    → IsPart part (t ∷ whole)
unfolding IsPart
IsPart-skip [] whole t p = tt
IsPart-skip (s ∷ part) whole t p = inr p

counted-IsPart :
    (crypto : Crypto) (signers : List Bytes) (payload : Bytes) (seen : List Bytes)
    (sigs : List MultisigSignature)
    → IsPart (counted crypto signers payload seen sigs) sigs
unfolding counted IsPart
counted-IsPart crypto signers payload seen [] = tt
counted-IsPart crypto signers payload seen (sig ∷ sigs) =
    let later = counted crypto signers payload seen sigs in
    elim (Bool-cases (counts crypto signers payload seen sig)) [
      | inl valid ↦ rw valid (
          inl (refl, counted-IsPart crypto signers payload (hex_encode sig.public_key ∷ seen) sigs))
      | inr other ↦
          rw other (IsPart-skip later sigs sig (counted-IsPart crypto signers payload seen sigs))
    ]

length-counted :
    (crypto : Crypto) (signers : List Bytes) (payload : Bytes) (seen : List Bytes)
    (sigs : List MultisigSignature)
    → length (counted crypto signers payload seen sigs)
      ≡ count_valid crypto signers payload seen sigs
unfolding counted count_valid
length-counted crypto signers payload seen [] = refl
length-counted crypto signers payload seen (sig ∷ sigs) = ground (
  arith,
  length-counted crypto signers payload (hex_encode sig.public_key ∷ seen) sigs,
  length-counted crypto signers payload seen sigs,
)

counts_iff :
    (crypto : Crypto) (signers : List Bytes) (payload : Bytes) (seen : List Bytes)
    (sig : MultisigSignature)
    → counts crypto signers payload seen sig ≡ true
    → IsApproval crypto signers payload sig × (member (hex_encode sig.public_key) seen ≡ false)
unfolding counts
counts_iff crypto signers payload seen sig h =
    (record { is_signer = ground arith; verifies = ground arith }, ground arith)

counted-IsApproval :
    (crypto : Crypto) (signers : List Bytes) (payload : Bytes) (seen : List Bytes)
    (sigs : List MultisigSignature)
    → All (IsApproval crypto signers payload) (counted crypto signers payload seen sigs)
unfolding counted
counted-IsApproval crypto signers payload seen [] = tt
counted-IsApproval crypto signers payload seen (sig ∷ sigs) =
    elim (Bool-cases (counts crypto signers payload seen sig)) [
      | inl valid ↦ rw valid (
        (counts_iff crypto signers payload seen sig valid).0,
        counted-IsApproval crypto signers payload (hex_encode sig.public_key ∷ seen) sigs,
      )
      | inr other ↦ rw other (counted-IsApproval crypto signers payload seen sigs)
    ]

-- No counted key has its hexadecimal text among those seen before.
counted_fresh :
    (crypto : Crypto) (signers : List Bytes) (payload : Bytes) (key : Bytes) (seen : List Bytes)
    (sigs : List MultisigSignature)
    → member (hex_encode key) seen ≡ true
    → NotIn key (approvers (counted crypto signers payload seen sigs))
unfolding counted
counted_fresh crypto signers payload key seen [] h = tt
counted_fresh crypto signers payload key seen (sig ∷ sigs) h =
    elim (Bool-cases (counts crypto signers payload seen sig)) [
      | inl valid ↦
          let fresh = (counts_iff crypto signers payload seen sig valid).1 in
          rw valid (
            (λ same. ground (arith, ap (λ k. member (hex_encode k) seen) same)),
            counted_fresh crypto signers payload key (hex_encode sig.public_key ∷ seen) sigs
                (unfold member in ground arith),
          )
      | inr other ↦ rw other (counted_fresh crypto signers payload key seen sigs h)
    ]

counted-Distinct :
    (crypto : Crypto) (signers : List Bytes) (payload : Bytes) (seen : List Bytes)
    (sigs : List MultisigSignature)
    → Distinct (approvers (counted crypto signers payload seen sigs))
unfolding counted
counted-Distinct crypto signers payload seen [] = tt
counted-Distinct crypto signers payload seen (sig ∷ sigs) =
    elim (Bool-cases (counts crypto signers payload seen sig)) [
      | inl valid ↦ rw valid (
        counted_fresh crypto signers payload sig.public_key (hex_encode sig.public_key ∷ seen) sigs
            (unfold member in
              ground
                (arith, bytes_beq_iff (hex_encode sig.public_key) (hex_encode sig.public_key))),
        counted-Distinct crypto signers payload (hex_encode sig.public_key ∷ seen) sigs,
      )
      | inr other ↦ rw other (counted-Distinct crypto signers payload seen sigs)
    ]

-- Among the signatures that an accepted transaction carries are at least as many approvals as the
-- account's threshold: each by one of the account's signers, with a valid signature of the
-- transaction's payload, and no two by the same key.
pub verify_multisig_tx_threshold :
    (crypto : Crypto) (account : MultisigAccount) (tx : MultisigTx)
    → verify_multisig_tx crypto account tx ≡ true
    → (approvals : List MultisigSignature) × IsPart approvals tx.signatures
      × All (IsApproval crypto account.signers (multisig_signing_payload tx)) approvals
      × Distinct (approvers approvals)
      × (account.threshold ≤ length approvals)
unfolding verify_multisig_tx
verify_multisig_tx_threshold crypto account tx h =
    let payload = multisig_signing_payload tx in
    (
      counted crypto account.signers payload [] tx.signatures,
      counted-IsPart crypto account.signers payload [] tx.signatures,
      counted-IsApproval crypto account.signers payload [] tx.signatures,
      counted-Distinct crypto account.signers payload [] tx.signatures,
      ground (arith, length-counted crypto account.signers payload [] tx.signatures),
    )
