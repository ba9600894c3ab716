-- ===== src/Transaction/RoundTrip.antt =====
-- A transaction within the format's limits is read back from its binary form.
use mermai_blockchain.Base.{
  ◌≤◌, ◌≡◌, ◌++◌, arith, length, is_empty, if◌then◌else◌, All, append_assoc,
}
use mermai_blockchain.Base.Words.{IsU32, IsU64}
use mermai_blockchain.Base.Key.{Bytes}
use mermai_blockchain.Wire.{
  ok, err, max_serialized_bytes, max_serialized_string, max_transaction_inputs,
  max_transaction_outputs, trailing_transaction_data,
}
use mermai_blockchain.Wire.Values.{
  read_u32-write, read_u64-write, read_bytes-write, read_string-write, read_items-write, small_size,
  count_passes,
}
use mermai_blockchain.Transaction.{
  TxInput, TxOutput, Transaction, write_input, read_input, write_output, read_output,
  serialize_transaction, deserialize_transaction,
}

pub record IsEncodableInput (i : TxInput) : Type 0 where
  pub prev_tx_hash_size : length i.prev_tx_hash ≤ max_serialized_string
  pub prev_output_idx_range : IsU32 i.prev_output_idx
  pub signature_size : length i.signature ≤ max_serialized_bytes
  pub public_key_size : length i.public_key ≤ max_serialized_bytes

pub record IsEncodableOutput (o : TxOutput) : Type 0 where
  pub address_size : length o.address ≤ max_serialized_string
  pub amount_range : IsU64 o.amount

-- The fields fit their machine types, and no part is longer than the reader accepts.
pub record IsEncodable (tx : Transaction) : Type 0 where
  pub id_size : length tx.id ≤ max_serialized_string
  pub fee_range : IsU64 tx.fee
  pub timestamp_range : IsU64 tx.timestamp
  pub input_count : length tx.inputs ≤ max_transaction_inputs
  pub output_count : length tx.outputs ≤ max_transaction_outputs
  pub encodable_inputs : All IsEncodableInput tx.inputs
  pub encodable_outputs : All IsEncodableOutput tx.outputs

read_input-write :
    (i : TxInput) (rest : Bytes)
    → IsEncodableInput i
    → read_input (write_input i ++ rest) ≡ ok (i, rest)
unfolding read_input write_input
read_input-write i rest h = simp (
  append_assoc,
  read_string-write i.prev_tx_hash _ h.prev_tx_hash_size,
  read_u32-write i.prev_output_idx _ h.prev_output_idx_range,
  read_bytes-write i.signature _ h.signature_size,
  read_bytes-write i.public_key _ h.public_key_size,
)

read_output-write :
    (o : TxOutput) (rest : Bytes)
    → IsEncodableOutput o
    → read_output (write_output o ++ rest) ≡ ok (o, rest)
unfolding read_output write_output
read_output-write o rest h = simp (
  append_assoc,
  read_string-write o.address _ h.address_size,
  read_u64-write o.amount _ h.amount_range,
)

-- Deserialising the binary form of an encodable transaction gives it back; bytes after it are
-- refused as trailing data.
pub deserialize-serialize_transaction :
    (tx : Transaction) (rest : Bytes)
    → IsEncodable tx
    → deserialize_transaction (serialize_transaction tx ++ rest)
      ≡ (if is_empty rest then ok tx else err trailing_transaction_data)
unfolding deserialize_transaction serialize_transaction
deserialize-serialize_transaction tx rest h =
    simp
      (
        append_assoc,
        read_string-write tx.id _ h.id_size,
        read_u64-write tx.fee _ h.fee_range,
        read_u64-write tx.timestamp _ h.timestamp_range,
        small_size (length tx.inputs) (omega (arith, h.input_count)),
        small_size (length tx.outputs) (omega (arith, h.output_count)),
        read_u32-write (length tx.inputs) _ (omega (arith, h.input_count)),
        read_u32-write (length tx.outputs) _ (omega (arith, h.output_count)),
        count_passes max_transaction_inputs (length tx.inputs) _ _ h.input_count,
        count_passes max_transaction_outputs (length tx.outputs) _ _ h.output_count,
        read_items-write IsEncodableInput write_input read_input read_input-write tx.inputs _
            h.encodable_inputs,
        read_items-write IsEncodableOutput write_output read_output read_output-write tx.outputs _
            h.encodable_outputs,
      )
      (ground arith)
