-- ===== src/Mempool/Tests.antt =====
-- A run of the pool, and the invariant at it.
use mermai_blockchain.Base.{ℕ, [], ◌∷◌, List, ◌≡◌, refl}
use mermai_blockchain.Base.Key.{Bytes, bytes_beq, bytes_less}
use mermai_blockchain.Base.Map.{find, contains, insert, erase, keys}
use mermai_blockchain.Base.Set.{member, add, remove}
use mermai_blockchain.Crypto.Sample.{sample_crypto}
use mermai_blockchain.Transaction.{Transaction}
use mermai_blockchain.Mempool.{Call, adds, removes, new_mempool, run}
use mermai_blockchain.Mempool.Claims.{IsConsistent, run-new_mempool-IsConsistent}

abbrev spending : Bytes → Bytes → ℕ → Transaction
spending id spent fee = record {
  id = id;
  inputs =
      record { prev_tx_hash = spent; prev_output_idx = 0; signature = []; public_key = [] } ∷ [];
  outputs = [];
  fee = fee;
  timestamp = 0;
}

-- The second spends what the first spends, the fourth finds the pool full and evicts the third.
abbrev calls : List Call
calls =
    adds (spending (1 ∷ []) (9 ∷ []) 2)
    ∷ adds (spending (2 ∷ []) (9 ∷ []) 3)
    ∷ adds (spending (3 ∷ []) (8 ∷ []) 1)
    ∷ adds (spending (4 ∷ []) (7 ∷ []) 2)
    ∷ removes (1 ∷ [])
    ∷ []

run-keys : keys (run sample_crypto (new_mempool 2) calls).transactions ≡ (4 ∷ []) ∷ []
unfolding run new_mempool find contains insert erase member add remove bytes_beq bytes_less
run-keys = refl

run-new_mempool-IsConsistent_example : IsConsistent (run sample_crypto (new_mempool 2) calls)
run-new_mempool-IsConsistent_example = run-new_mempool-IsConsistent sample_crypto 2 calls
