-- ===== src/Chain/Tests.antt =====
-- A chain that takes a block, then a longer chain.
use mermai_blockchain.Base.{
  ◌<◌, ◌≡◌, ◌⊎◌, refl, true, false, none, List, [], ◌∷◌, length, replicate,
}
use mermai_blockchain.Base.Key.{bytes_beq}
use mermai_blockchain.Crypto.{hex_encode}
use mermai_blockchain.Crypto.Sample.{sample_crypto}
use mermai_blockchain.Floats.Sample.{sample_floats}
use mermai_blockchain.Wire.{write_value, write_string, write_bytes, write_items}
use mermai_blockchain.Block.{
  Block, new_block, serialize_block, calculate_hash, verify_time_weight_pos,
}
use mermai_blockchain.Proposal.{block_hash_hex}
use mermai_blockchain.Chain.{
  genesis, new_blockchain, replace_chain_if_longer, is_valid, Call, adds, replaces, run,
}
use mermai_blockchain.Chain.Linked.{run-new_blockchain-IsWellFormed, replace_chain_if_longer_lem}
use mermai_blockchain.Chain.Links.{IsWellFormed}

abbrev next : Block → Block
next previous = record (new_block 1640000010 1) {
  prev_block_hash = block_hash_hex sample_crypto previous;
  validator_address = 97 ∷ [];
  validator_stake = 1000000;
}

abbrev first_block : Block
first_block = next genesis

abbrev second_block : Block
second_block = record (next first_block) { height = 2 }

abbrev calls : List (Call sample_floats sample_crypto)
calls =
    adds 1640000020 second_block
    ∷ adds 1640000020 first_block
    ∷ replaces 1640000020 (genesis ∷ first_block ∷ second_block ∷ [])
    ∷ []

run-length :
    length
      (run sample_floats sample_crypto
        (new_blockchain sample_floats sample_crypto none)
        calls).chain
    ≡ 3
unfolding run new_blockchain new_block bytes_beq hex_encode calculate_hash serialize_block
    write_value write_string write_bytes write_items verify_time_weight_pos replicate
run-length = refl

run-new_blockchain-IsWellFormed_example :
    IsWellFormed sample_floats sample_crypto
      (run sample_floats sample_crypto
        (new_blockchain sample_floats sample_crypto none)
        calls).chain
    × (is_valid sample_floats sample_crypto
          (run sample_floats sample_crypto (new_blockchain sample_floats sample_crypto none) calls)
        ≡ true)
run-new_blockchain-IsWellFormed_example =
    run-new_blockchain-IsWellFormed sample_floats sample_crypto none calls

abbrev candidate : List Block
candidate = genesis ∷ first_block ∷ []

replace_chain_if_longer_lem_example :
    ((replace_chain_if_longer sample_floats sample_crypto 1640000020 candidate
          (new_blockchain sample_floats sample_crypto none)).1
        ≡ false)
      × ((replace_chain_if_longer sample_floats sample_crypto 1640000020 candidate
            (new_blockchain sample_floats sample_crypto none)).0.chain
          ≡ (new_blockchain sample_floats sample_crypto none).chain)
    ⊎ ((replace_chain_if_longer sample_floats sample_crypto 1640000020 candidate
          (new_blockchain sample_floats sample_crypto none)).1
        ≡ true)
      × ((replace_chain_if_longer sample_floats sample_crypto 1640000020 candidate
            (new_blockchain sample_floats sample_crypto none)).0.chain
          ≡ candidate)
      × (length (new_blockchain sample_floats sample_crypto none).chain < length candidate)
      × IsWellFormed sample_floats sample_crypto candidate
replace_chain_if_longer_lem_example =
    replace_chain_if_longer_lem sample_floats sample_crypto 1640000020 candidate
      (new_blockchain sample_floats sample_crypto none)
