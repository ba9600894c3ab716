-- ===== src/Token/Allowances.antt =====
-- What a spender may take: the allowance is a budget.
use mermai_blockchain.Base.{ℕ, ◌+◌, ◌≡◌, false, ◌&&◌, All, List, [], ◌∷◌, arith, if◌then◌else◌}
use mermai_blockchain.Base.Words.{IsU64, sub64}
use mermai_blockchain.Base.Key.{Bytes, bytes_key, bytes_beq_iff, ◌==◌}
use mermai_blockchain.Token.{
  TokenContract, allowance, transfer_from, Call, transfers, approves, transfers_from, mints, burns,
  apply, run, touch_allowance,
}
use mermai_blockchain.Token.Transfers.{granted, allowance-eq-granted, granted-set, granted-touch}

module _ (owner spender : Bytes) where
  -- What one call, carried out, takes from the owner in the name of the spender.
  abbrev pub taken : TokenContract → Call → ℕ
  taken t (transfers_from s from to amount) =
      if s == spender && from == owner && (transfer_from t s from to amount).1 then amount else 0
  taken t _ = 0

  -- The sum of what a sequence of calls takes.
  unfoldable pub total_taken : TokenContract → List Call → ℕ
  total_taken t [] = 0
  total_taken t (c ∷ cs) = taken t c + total_taken (apply t c).0 cs

  -- The call is no approval of the spender by the owner.
  abbrev pub IsNoGrant : Call → Type 0
  IsNoGrant (approves caller s amount) = (caller == owner && s == spender) ≡ false
  IsNoGrant _ = Unit

  granted-transfer_from :
      (t : TokenContract) (s from to : Bytes) (amount : ℕ)
      → IsU64 (granted t.allowances owner spender)
      → granted (transfer_from t s from to amount).0.allowances owner spender
          + taken t (transfers_from s from to amount)
        ≡ granted t.allowances owner spender
  unfolding transfer_from
  granted-transfer_from t s from to amount small =
      let read = touch_allowance from s t.allowances in
      ground (
        arith,
        granted-touch owner spender from s t.allowances,
        granted-set owner spender from s (sub64 (granted read from s) amount) read,
        bytes_beq_iff owner from,
        bytes_beq_iff from owner,
        bytes_beq_iff spender s,
        bytes_beq_iff s spender,
      )

  granted-apply :
      (t : TokenContract) (c : Call)
      → IsNoGrant c
      → IsU64 (granted t.allowances owner spender)
      → granted (apply t c).0.allowances owner spender + taken t c
        ≡ granted t.allowances owner spender
  unfolding apply
  granted-apply t (transfers caller to amount) n small = ground arith
  granted-apply t (approves caller s amount) n small = ground (
    arith,
    granted-set owner spender caller s amount t.allowances,
    bytes_beq_iff owner caller,
    bytes_beq_iff caller owner,
    bytes_beq_iff spender s,
    bytes_beq_iff s spender,
  )
  granted-apply t (transfers_from s from to amount) n small =
      granted-transfer_from t s from to amount small
  granted-apply t (mints caller to amount) n small = ground arith
  granted-apply t (burns caller amount) n small = ground arith

  granted-run :
      (t : TokenContract) (cs : List Call)
      → All IsNoGrant cs
      → IsU64 (granted t.allowances owner spender)
      → granted (run t cs).allowances owner spender + total_taken t cs
        ≡ granted t.allowances owner spender
  unfolding run total_taken
  granted-run t [] n small = omega arith
  granted-run t (c ∷ cs) n small =
      let now = granted-apply t c n.0 small in
      omega (arith, now, granted-run (apply t c).0 cs n.1 (omega (arith, now)))

  -- An allowance is a budget: over any calls that hold no approval of the spender by the owner,
  -- all that `transfer_from` takes from the owner for the spender, and the allowance that is left,
  -- add up to the allowance at the start.
  pub total_taken-allowance :
      (t : TokenContract) (cs : List Call)
      → All IsNoGrant cs
      → IsU64 (allowance t owner spender)
      → allowance (run t cs) owner spender + total_taken t cs ≡ allowance t owner spender
  total_taken-allowance t cs n small =
      let start = allowance-eq-granted t owner spender in
      let end = allowance-eq-granted (run t cs) owner spender in
      omega (arith, start, end, granted-run t cs n (omega (arith, start)))
