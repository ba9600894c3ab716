-- ===== src/Mempool/Lowest.antt =====
-- The search of the pool for the entry to drop.
use mermai_blockchain.Base.{◌≡◌, true, false, some, [], ◌∷◌, arith, ltb, if◌then◌else◌}
use mermai_blockchain.Base.Key.{Bytes, bytes_key, nat_key, pair_key, bytes_beq_refl, bytes_beq_iff}
use mermai_blockchain.Base.Map.{Map, find}
use mermai_blockchain.Base.Map.Unique.{IsUnique, find-NotIn}
use mermai_blockchain.Transaction.{Transaction}
use mermai_blockchain.Mempool.{lowest_from, lowest}

-- The entry that is found below one that was passed over is found with it in its place.
found_below :
    (best e r : Bytes × Transaction) (m : Map Bytes Transaction)
    → IsUnique (best ∷ e ∷ m)
    → find r.0 (e ∷ m) ≡ some r.1
    → find r.0 (best ∷ e ∷ m) ≡ some r.1
unfolding find
found_below best e r m u h = ground (arith, find-NotIn best.0 (e ∷ m) u.0, bytes_beq_iff r.0 best.0)

found_around :
    (best e r : Bytes × Transaction) (m : Map Bytes Transaction)
    → IsUnique (best ∷ e ∷ m)
    → find r.0 (best ∷ m) ≡ some r.1
    → find r.0 (best ∷ e ∷ m) ≡ some r.1
unfolding find
found_around best e r m u h = ground (arith, find-NotIn e.0 m u.1.0, bytes_beq_iff r.0 e.0)

lowest_from_found :
    (best : Bytes × Transaction) (m : Map Bytes Transaction)
    → IsUnique (best ∷ m)
    → find (lowest_from best m).0 (best ∷ m) ≡ some (lowest_from best m).1
unfolding lowest_from
lowest_from_found best [] u = unfold find in ground (arith, bytes_beq_refl best.0)
lowest_from_found best (e ∷ m) u =
    let by_kept = lowest_from_found e m u.1 in
    let by_best = lowest_from_found best m (u.0.1, u.1.1) in
    elim (ltb e.1.fee best.1.fee)
      as (λ b.
        find (lowest_from (if b then e else best) m).0 (best ∷ e ∷ m)
        ≡ some (lowest_from (if b then e else best) m).1) [
          | true ↦ found_below best e (lowest_from e m) m u by_kept
          | false ↦ found_around best e (lowest_from best m) m u by_best
        ]

pub lowest_found :
    (m : Map Bytes Transaction) (e : Bytes × Transaction)
    → IsUnique m
    → lowest m ≡ some e
    → find e.0 m ≡ some e.1
unfolding lowest
lowest_found [] e u h = cc
lowest_found (x ∷ m) e u h = ground (arith, lowest_from_found x m u)
