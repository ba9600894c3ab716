-- ===== src/Proposal/Equivocation.antt =====
-- One block for a height and a slot.
use mermai_blockchain.Base.{
  ℕ, ◌≡◌, ◌≢◌, true, false, some, List, [], ◌∷◌, arith, Option-cases, inl, inr,
}
use mermai_blockchain.Base.Key.{Bytes, bytes_key, nat_key, pair_key, bytes_beq_iff, ==_refl}
use mermai_blockchain.Base.Map.{find, find-insert}
use mermai_blockchain.Crypto.{Crypto}
use mermai_blockchain.Floats.{Floats}
use mermai_blockchain.Block.{Block}
use mermai_blockchain.Staking.{TimeWeightedPos}
use mermai_blockchain.Proposal.{SeenProposals, slot_of, block_hash_hex, validate_proposal}

module _ (floats : Floats) (crypto : Crypto) where
  -- A proposal that is put to the validator: the block, the time and the engine of that moment.
  abbrev pub Attempt : Type 0
  Attempt = Block × ℕ × TimeWeightedPos floats.Float

  unfoldable pub see : Attempt → SeenProposals → SeenProposals
  see a seen = (validate_proposal floats crypto a.0 a.1 a.2 seen).0.1

  unfoldable pub see_all : List Attempt → SeenProposals → SeenProposals
  unfolding see
  see_all [] seen = seen
  see_all (a ∷ attempts) seen = see_all attempts (see a seen)

  see_keeps :
      (k : ℕ × ℕ) (h : Bytes) (a : Attempt) (seen : SeenProposals)
      → find k seen ≡ some h
      → find k (see a seen) ≡ some h
  unfolding see validate_proposal
  see_keeps k h (b, now, consensus) seen e =
      let key : ℕ × ℕ = (b.height, slot_of now) in
      let hash = block_hash_hex crypto b in
      ground (arith, find-insert k key hash seen, pair_key.beq_iff k key)

  see_all_keeps :
      (k : ℕ × ℕ) (h : Bytes) (attempts : List Attempt) (seen : SeenProposals)
      → find k seen ≡ some h
      → find k (see_all attempts seen) ≡ some h
  unfolding see_all
  see_all_keeps k h [] seen e = e
  see_all_keeps k h (a ∷ attempts) seen e =
      see_all_keeps k h attempts (see a seen) (see_keeps k h a seen e)

  accepted_seen :
      (b : Block) (now : ℕ) (consensus : TimeWeightedPos floats.Float) (seen : SeenProposals)
      → (validate_proposal floats crypto b now consensus seen).1 ≡ true
      → find (b.height, slot_of now) (see (b, now, consensus) seen) ≡ some (block_hash_hex crypto b)
  unfolding see validate_proposal
  accepted_seen b now consensus seen h =
      let key : ℕ × ℕ = (b.height, slot_of now) in
      let hash = block_hash_hex crypto b in
      elim (Option-cases (find key seen)) [
        | inl new ↦ ground (arith, find-insert key key hash seen, ==_refl key)
        | inr (known, found) ↦ ground (arith, bytes_beq_iff known hash)
      ]

  seen_refused :
      (b : Block) (now : ℕ) (consensus : TimeWeightedPos floats.Float) (seen : SeenProposals)
      (known : Bytes)
      → find (b.height, slot_of now) seen ≡ some known
      → known ≢ block_hash_hex crypto b
      → (validate_proposal floats crypto b now consensus seen).1 ≡ false
  unfolding validate_proposal
  seen_refused b now consensus seen known found differs =
      ground (arith, bytes_beq_iff known (block_hash_hex crypto b))

  -- Once a proposal is accepted, every later one for the same height and the same slot of ten
  -- seconds whose block has another hash is refused, whatever proposals come between them and
  -- however the validators change, while the seen proposals are not reset.
  pub validate_proposal-no_equivocation :
      (b c : Block) (now later : ℕ) (consensus changed : TimeWeightedPos floats.Float)
      (seen : SeenProposals) (between : List Attempt)
      → (validate_proposal floats crypto b now consensus seen).1 ≡ true
      → c.height ≡ b.height
      → slot_of later ≡ slot_of now
      → block_hash_hex crypto b ≢ block_hash_hex crypto c
      → (validate_proposal floats crypto c later changed
          (see_all between (validate_proposal floats crypto b now consensus seen).0.1)).1
        ≡ false
  unfolding see
  validate_proposal-no_equivocation b c now later consensus changed seen between ok height slot d =
      let after = see_all between (see (b, now, consensus) seen) in
      let kept =
        see_all_keeps (b.height, slot_of now) (block_hash_hex crypto b) between
          (see (b, now, consensus) seen) (accepted_seen b now consensus seen ok) in
      seen_refused c later changed after (block_hash_hex crypto b) (rw (height, slot) kept) d
