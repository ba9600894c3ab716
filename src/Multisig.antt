-- ===== src/Multisig.antt =====
-- `mermai_multisig_engine` and the transactions it checks: include/mermai/mermai_multisig.hpp and
-- src/core/mermai_multisig.cpp.
pub mod Threshold
mod Tests
use mermai_blockchain.Base.{
  ℕ, zero, suc, ◌+◌, Bool, true, false, ◌&&◌, not, List, [], ◌∷◌, ◌++◌, ltb, leb, length, take,
  if◌then◌else◌, Option, none, some,
}
use mermai_blockchain.Base.Key.{Bytes, bytes_key, nat_key, ◌==◌}
use mermai_blockchain.Base.Set.{member}
use mermai_blockchain.Crypto.{Crypto, hex_encode}
use mermai_blockchain.Wire.{Result, ok, err, ◌>>=◌}
use mermai_blockchain.Vote.{to_decimal}
use mermai_blockchain.Transaction.{Transaction, serialize_transaction, deserialize_transaction}

pub record MultisigAccount : Type 0 where
  pub address : Bytes
  pub threshold : ℕ
  pub signers : List Bytes
  pub balance : ℕ
  pub nonce : ℕ

pub record MultisigSignature : Type 0 where
  pub public_key : Bytes
  pub signature : Bytes

pub record MultisigTx : Type 0 where
  pub base_tx : Transaction
  pub multisig_address : Bytes
  pub signatures : List MultisigSignature

-- The keys in hexadecimal, each with a comma after it.
unfoldable pub join_keys : List Bytes → Bytes
join_keys [] = []
join_keys (key ∷ keys) = hex_encode key ++ (b',' ∷ join_keys keys)

unfoldable pub calculate_multisig_address : Crypto → ℕ → List Bytes → Bytes
unfolding join_keys
calculate_multisig_address crypto threshold public_keys =
    let hash = crypto.sha256 (to_decimal threshold ++ (b':' ∷ join_keys public_keys)) in
    b'm' ∷ b'r' ∷ b'm' ∷ b'_' ∷ b'm' ∷ b's' ∷ b'1' ∷ hex_encode (take 20 hash)

unfoldable pub create_account : Crypto → ℕ → List Bytes → MultisigAccount
unfolding calculate_multisig_address
create_account crypto threshold public_keys = record {
  address = calculate_multisig_address crypto threshold public_keys;
  threshold = threshold;
  signers = public_keys;
  balance = 0;
  nonce = 0;
}

-- `mermai_multisig_tx::signing_payload`
unfoldable pub multisig_signing_payload : MultisigTx → Bytes
multisig_signing_payload tx = serialize_transaction tx.base_tx ++ (b':' ∷ tx.multisig_address)

unfoldable pub has_signed : Bytes → List MultisigSignature → Bool
has_signed public_key [] = false
has_signed public_key (sig ∷ signatures) =
    if sig.public_key == public_key then true else has_signed public_key signatures

unfoldable pub add_signature : Bytes → Bytes → MultisigTx → MultisigTx × Bool
unfolding has_signed
add_signature public_key signature tx =
    if has_signed public_key tx.signatures then (tx, false) else (
      record tx {
        signatures =
            tx.signatures ++ (record { public_key = public_key; signature = signature } ∷ []);
      },
      true,
    )

-- Whether an entry counts, given the hexadecimal keys that counted before it.
unfoldable pub counts : Crypto → List Bytes → Bytes → List Bytes → MultisigSignature → Bool
counts crypto signers payload seen_signers sig =
    member sig.public_key signers
    && (not (member (hex_encode sig.public_key) seen_signers)
        && (crypto.parses_key sig.public_key
            && crypto.digest_verify sig.public_key payload sig.signature))

-- The loop over the signatures: the number of those that count.
unfoldable pub count_valid : Crypto → List Bytes → Bytes → List Bytes → List MultisigSignature → ℕ
unfolding counts
count_valid crypto signers payload seen_signers [] = 0
count_valid crypto signers payload seen_signers (sig ∷ signatures) =
    if counts crypto signers payload seen_signers sig
    then suc
        (count_valid crypto signers payload (hex_encode sig.public_key ∷ seen_signers) signatures)
    else count_valid crypto signers payload seen_signers signatures

unfoldable pub verify_multisig_tx : Crypto → MultisigAccount → MultisigTx → Bool
unfolding count_valid multisig_signing_payload
verify_multisig_tx crypto account tx =
    if ltb (length tx.signatures) account.threshold
    then false
    else leb account.threshold
        (count_valid crypto account.signers (multisig_signing_payload tx) [] tx.signatures)

-- `mermai_multisig_account::serialize`
unfoldable pub serialize_account : MultisigAccount → Bytes
unfolding join_keys
serialize_account acct =
    acct.address
    ++ (b'|'
        ∷ (to_decimal acct.threshold
            ++ (b'|'
                ∷ (to_decimal acct.balance
                    ++ (b'|' ∷ (to_decimal acct.nonce ++ (b'|' ∷ join_keys acct.signers)))))))

-- `mermai_multisig_tx::serialize`
unfoldable pub serialize_multisig_tx : MultisigTx → Bytes
serialize_multisig_tx tx = serialize_transaction tx.base_tx ++ (b'#' ∷ tx.multisig_address)

-- `data.find('#')`, with the text on both sides of it.
unfoldable pub split_at : ℕ → Bytes → Option (Bytes × Bytes)
split_at mark [] = none
split_at mark (c ∷ text) =
    let rest = split_at mark text in
    if c == mark
    then some ([], text)
    else elim rest [ none ↦ none | some (left, right) ↦ some (c ∷ left, right) ]

-- `mermai_multisig_tx::deserialize`: without a '#' it is the empty transaction.
unfoldable pub deserialize_multisig_tx : Bytes → Result MultisigTx
unfolding split_at
deserialize_multisig_tx input = elim (split_at b'#' input) [
  | none ↦ ok (record {
    base_tx = record { id = []; inputs = []; outputs = []; fee = 0; timestamp = 0 };
    multisig_address = [];
    signatures = [];
  })
  | some (left, right) ↦ (do
    base_tx ← deserialize_transaction left
    ok (record { base_tx = base_tx; multisig_address = right; signatures = [] }))
]
