-- ===== src/Multisig/Tests.antt =====
-- A transaction that two of three signers approve.
use mermai_blockchain.Base.{◌≤◌, ◌≡◌, refl, true, List, [], ◌∷◌, All, length}
use mermai_blockchain.Base.Key.{Bytes, bytes_beq}
use mermai_blockchain.Base.Set.{Distinct, member}
use mermai_blockchain.Crypto.{hex_encode}
use mermai_blockchain.Crypto.Sample.{sample_crypto, sample_signature}
use mermai_blockchain.Wire.{write_value, write_string, write_items}
use mermai_blockchain.Transaction.{Transaction, serialize_transaction}
use mermai_blockchain.Multisig.{
  MultisigAccount, MultisigSignature, MultisigTx, create_account, multisig_signing_payload,
  verify_multisig_tx,
}
use mermai_blockchain.Multisig.Threshold.{
  IsPart, IsApproval, approvers, verify_multisig_tx_threshold,
}

abbrev account : MultisigAccount
account = create_account sample_crypto 2 ((5 ∷ []) ∷ (6 ∷ []) ∷ (7 ∷ []) ∷ [])

abbrev base : Transaction
base = record { id = 1 ∷ []; inputs = []; outputs = []; fee = 2; timestamp = 100 }

abbrev unsigned : MultisigTx
unsigned = record { base_tx = base; multisig_address = 97 ∷ []; signatures = [] }

abbrev approval : Bytes → MultisigSignature
approval key = record {
  public_key = key;
  signature = sample_signature key (multisig_signing_payload unsigned);
}

-- The first approval comes twice, and the third is by a stranger.
abbrev tx : MultisigTx
tx = record unsigned {
  signatures = approval (5 ∷ []) ∷ approval (5 ∷ []) ∷ approval (9 ∷ []) ∷ approval (7 ∷ []) ∷ [];
}

tx_verifies : verify_multisig_tx sample_crypto account tx ≡ true
unfolding verify_multisig_tx create_account hex_encode member bytes_beq serialize_transaction
    write_items write_string write_value
tx_verifies = refl

verify_multisig_tx_threshold_example :
    (approvals : List MultisigSignature) × IsPart approvals tx.signatures
    × All (IsApproval sample_crypto account.signers (multisig_signing_payload tx)) approvals
    × Distinct (approvers approvals)
    × (account.threshold ≤ length approvals)
verify_multisig_tx_threshold_example =
    verify_multisig_tx_threshold sample_crypto account tx tx_verifies
