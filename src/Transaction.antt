-- ===== src/Transaction.antt =====
-- `mermai_transaction` and its binary form: include/mermai/mermai_blockchain.hpp and
-- src/core/mermai_blockchain.cpp.
pub mod RoundTrip
pub mod Verify
use mermai_blockchain.Base.{
  ℕ, Bool, true, false, List, [], ◌∷◌, ◌++◌, ltb, length, is_empty, not, ◌%◌,
}
use mermai_blockchain.Base.Words.{u32_mod}
use mermai_blockchain.Base.Key.{Bytes}
use mermai_blockchain.Crypto.{Crypto, hex_encode}
use mermai_blockchain.Wire.{
  Result, ok, err, ◌>>=◌, ◌>>◌, throw_if, Reader, write_u32, write_u64, read_u32, read_u64,
  write_bytes, read_bytes, write_string, read_string, write_items, read_items, too_many_inputs,
  too_many_outputs, trailing_transaction_data, max_transaction_inputs, max_transaction_outputs,
}

pub record TxInput : Type 0 where
  pub prev_tx_hash : Bytes
  pub prev_output_idx : ℕ
  pub signature : Bytes
  pub public_key : Bytes

pub record TxOutput : Type 0 where
  pub address : Bytes
  pub amount : ℕ

pub record Transaction : Type 0 where
  pub id : Bytes
  pub inputs : List TxInput
  pub outputs : List TxOutput
  pub fee : ℕ
  pub timestamp : ℕ

-- The bodies of the loops of `serialize` and `deserialize`.
unfoldable pub write_input : TxInput → Bytes
write_input i =
    write_string i.prev_tx_hash
    ++ (write_u32 i.prev_output_idx ++ (write_bytes i.signature ++ write_bytes i.public_key))

unfoldable pub read_input : Reader TxInput
read_input s0 = do
  (prev_tx_hash, s1) ← read_string s0
  (prev_output_idx, s2) ← read_u32 s1
  (signature, s3) ← read_bytes s2
  (public_key, s4) ← read_bytes s3
  ok (
    record {
      prev_tx_hash = prev_tx_hash;
      prev_output_idx = prev_output_idx;
      signature = signature;
      public_key = public_key;
    },
    s4,
  )

unfoldable pub write_output : TxOutput → Bytes
write_output o = write_string o.address ++ write_u64 o.amount

unfoldable pub read_output : Reader TxOutput
read_output s0 = do
  (address, s1) ← read_string s0
  (amount, s2) ← read_u64 s1
  ok (record { address = address; amount = amount }, s2)

-- `mermai_transaction::serialize`
unfoldable pub serialize_transaction : Transaction → Bytes
serialize_transaction tx =
    write_string tx.id
    ++ (write_u64 tx.fee
        ++ (write_u64 tx.timestamp
            ++ (write_u32 (length tx.inputs % u32_mod)
                ++ (write_items write_input tx.inputs
                    ++ (write_u32 (length tx.outputs % u32_mod)
                        ++ write_items write_output tx.outputs)))))

-- `mermai_transaction::deserialize`
unfoldable pub deserialize_transaction : Bytes → Result Transaction
deserialize_transaction input = do
  (id, s1) ← read_string input
  (fee, s2) ← read_u64 s1
  (timestamp, s3) ← read_u64 s2
  (input_count, s4) ← read_u32 s3
  throw_if (ltb max_transaction_inputs input_count) too_many_inputs
  (inputs, s5) ← read_items input_count read_input s4
  (output_count, s6) ← read_u32 s5
  throw_if (ltb max_transaction_outputs output_count) too_many_outputs
  (outputs, s7) ← read_items output_count read_output s6
  throw_if (not (is_empty s7)) trailing_transaction_data
  ok (record { id = id; inputs = inputs; outputs = outputs; fee = fee; timestamp = timestamp })

-- `mermai_transaction::get_hash`
unfoldable pub transaction_hash : Crypto → Transaction → Bytes
transaction_hash crypto tx = hex_encode (crypto.sha256 (serialize_transaction tx))
