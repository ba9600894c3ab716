-- ===== src/Quorum/Tally.antt =====
-- The votes and the stake that `mermai_quorum_collector` counts for a block, against a tally that is
-- made from the calls alone.
use mermai_blockchain.Base.{
  ◌*◌, ◌≤◌, ◌<◌, ◌≡◌, refl, true, false, none, some, List, [], ◌∷◌, arith, Option-cases, inl, inr,
}
use mermai_blockchain.Base.Words.{u64_mod}
use mermai_blockchain.Base.Key.{Bytes, bytes_key}
use mermai_blockchain.Base.Map.{find, find_or}
use mermai_blockchain.Crypto.{Crypto}
use mermai_blockchain.Floats.{Floats}
use mermai_blockchain.Vote.{BlockVote}
use mermai_blockchain.Staking.{TimeWeightedPos}
use mermai_blockchain.Staking.Engine.{get_total_active_stake}
use mermai_blockchain.Quorum.{
  QuorumCollector, new_collector, get_votes, get_vote_stake, is_block_finalized, record_vote,
  voter_stake, add_vote, clear,
}
use mermai_blockchain.Quorum.Votes.{
  IsBallot, voter_stake-signed, record_vote_finalizes, reaches_quorum_bounds,
}
use mermai_blockchain.Quorum.Entries.{
  Entry, votes_of, stake_of, enter_stake, IsCounted, record_vote-IsCounted, enter_stake-IsBallot,
}

module _ (floats : Floats) (crypto : Crypto) where
  -- The calls that change a collector; each vote meets the engine as it is then.
  pub data Call : Type 0 where
    adds : BlockVote → TimeWeightedPos floats.Float → Call
    clears : Call

  unfoldable apply : QuorumCollector → Call → QuorumCollector
  unfolding add_vote clear
  apply c (adds vote engine) = (add_vote floats crypto vote engine c).0
  apply c clears = clear c

  unfoldable pub run : QuorumCollector → List Call → QuorumCollector
  unfolding apply
  run c [] = c
  run c (call ∷ calls) = run (apply c call) calls

  -- The entries after a vote: the vote may count with the stake that its validator has then.
  unfoldable pub enter_vote :
      Bytes → BlockVote → TimeWeightedPos floats.Float → List Entry → List Entry
  unfolding enter_stake
  enter_vote block_hash vote engine entries = elim (voter_stake floats crypto vote engine) [
    | none ↦ entries
    | some stake ↦ enter_stake block_hash vote stake entries
  ]

  -- The entries for a block after calls: the first vote of each validator since the last `clear`.
  unfoldable pub tally : Bytes → List Entry → List Call → List Entry
  unfolding enter_vote
  tally block_hash entries [] = entries
  tally block_hash entries (adds vote engine ∷ calls) =
      tally block_hash (enter_vote block_hash vote engine entries) calls
  tally block_hash entries (clears ∷ calls) = tally block_hash [] calls

  -- Both: the collector holds the entries, and they are a ballot.
  abbrev IsTallied : Bytes → List Entry → QuorumCollector → Type 0
  IsTallied block_hash entries c =
      IsCounted block_hash entries c × IsBallot crypto block_hash (votes_of entries)

  add_vote-IsTallied :
      (vote : BlockVote) (engine : TimeWeightedPos floats.Float) (c : QuorumCollector)
      (block_hash : Bytes) (entries : List Entry)
      → IsTallied block_hash entries c
      → IsTallied block_hash
          (enter_vote block_hash vote engine entries)
          (add_vote floats crypto vote engine c).0
  unfolding enter_vote add_vote
  add_vote-IsTallied vote engine c block_hash entries (w, b) =
      let total = get_total_active_stake floats engine in
      elim (Option-cases (voter_stake floats crypto vote engine)) [
        | inl refused ↦ rw (enter_vote, add_vote, refused) (w, b)
        | inr (stake, found) ↦
            rw (enter_vote, add_vote, found)
              (
                record_vote-IsCounted vote stake total c block_hash entries w,
                enter_stake-IsBallot crypto vote stake block_hash entries
                    (voter_stake-signed floats crypto vote engine stake found) b,
              )
      ]

  new_collector-IsTallied : (block_hash : Bytes) → IsTallied block_hash [] new_collector
  unfolding new_collector get_votes get_vote_stake find_or find
  new_collector-IsTallied block_hash =
      (record { votes = refl; stake = omega arith }, record { genuine = tt; once = tt })

  run-IsTallied :
      (calls : List Call) (c : QuorumCollector) (block_hash : Bytes) (entries : List Entry)
      → IsTallied block_hash entries c
      → IsTallied block_hash (tally block_hash entries calls) (run c calls)
  unfolding tally run apply clear
  run-IsTallied [] c block_hash entries t = t
  run-IsTallied (adds vote engine ∷ calls) c block_hash entries t =
      run-IsTallied calls (add_vote floats crypto vote engine c).0 block_hash
        (enter_vote block_hash vote engine entries)
        (add_vote-IsTallied vote engine c block_hash entries t)
  run-IsTallied (clears ∷ calls) c block_hash entries t =
      run-IsTallied calls new_collector block_hash [] (new_collector-IsTallied block_hash)

  -- After any calls of `add_vote` and `clear` on a new collector, the votes that it holds for a block
  -- are the first accepted vote of each validator for that block since the last `clear`, each with a
  -- valid signature and no two of one validator, and the stake that it holds for the block is the sum
  -- of the stakes that these validators had when they voted, modulo 2^64: no stake counts twice.
  pub run-new_collector-IsCounted :
      (calls : List Call) (block_hash : Bytes)
      → IsCounted block_hash (tally block_hash [] calls) (run new_collector calls)
        × IsBallot crypto block_hash (votes_of (tally block_hash [] calls))
  run-new_collector-IsCounted calls block_hash =
      run-IsTallied calls new_collector block_hash [] (new_collector-IsTallied block_hash)

  finalizing :
      (vote : BlockVote) (engine : TimeWeightedPos floats.Float) (c : QuorumCollector)
      (block_hash : Bytes)
      → is_block_finalized block_hash c ≡ false
      → is_block_finalized block_hash (add_vote floats crypto vote engine c).0 ≡ true
      → get_total_active_stake floats engine * 2 < u64_mod
      → get_vote_stake block_hash (add_vote floats crypto vote engine c).0 * 3 < u64_mod
      → (block_hash ≡ vote.block_hash)
        × (0 < get_total_active_stake floats engine)
        × (get_total_active_stake floats engine * 2
            ≤ get_vote_stake block_hash (add_vote floats crypto vote engine c).0 * 3)
  unfolding add_vote
  finalizing vote engine c block_hash before after small fits =
      let total = get_total_active_stake floats engine in
      elim (Option-cases (voter_stake floats crypto vote engine)) [
        | inl refused ↦ absurd (ground arith)
        | inr (stake, found) ↦
            let d = record_vote vote stake total c in
            let final =
              record_vote_finalizes vote stake total c block_hash before
                (rw (add_vote, found) at after) in
            let fits' : get_vote_stake block_hash d * 3 < u64_mod = rw (add_vote, found) at fits in
            let bounds =
              reaches_quorum_bounds (get_vote_stake block_hash d) total final.1 small fits' in
            rw (add_vote, found) (final.0, bounds.0, bounds.1)
      ]

  -- After any calls on a new collector, a call of `add_vote` that makes a block final is a vote for
  -- that block; and where twice the active stake and three times the stake of the votes that are
  -- entered for the block stay below 2^64 (the code multiplies them in 64 bits), the stakes that the
  -- voters had when they voted, those of distinct validators with valid signatures, are together at
  -- least two thirds of the active stake at the last vote, which is not 0.
  pub add_vote_finalizes :
      (calls : List Call) (vote : BlockVote) (engine : TimeWeightedPos floats.Float)
      (block_hash : Bytes)
      → is_block_finalized block_hash (run new_collector calls) ≡ false
      → is_block_finalized block_hash
          (add_vote floats crypto vote engine (run new_collector calls)).0
        ≡ true
      → get_total_active_stake floats engine * 2 < u64_mod
      → stake_of (enter_vote block_hash vote engine (tally block_hash [] calls)) * 3 < u64_mod
      → (block_hash ≡ vote.block_hash)
        × (0 < get_total_active_stake floats engine)
        × (get_total_active_stake floats engine * 2
            ≤ stake_of (enter_vote block_hash vote engine (tally block_hash [] calls)) * 3)
        × IsBallot crypto block_hash
            (votes_of (enter_vote block_hash vote engine (tally block_hash [] calls)))
  add_vote_finalizes calls vote engine block_hash before after small fits =
      let c = run new_collector calls in
      let entries = enter_vote block_hash vote engine (tally block_hash [] calls) in
      let (counted, ballot) =
        add_vote-IsTallied vote engine c block_hash (tally block_hash [] calls)
          (run-new_collector-IsCounted calls block_hash) in
      let exact : get_vote_stake block_hash (add_vote floats crypto vote engine c).0
          ≡ stake_of entries =
        omega (arith, counted.stake, fits) in
      let (same, some_stake, enough) =
        finalizing vote engine c block_hash before after small (omega (arith, exact, fits)) in
      (same, some_stake, omega (arith, exact, enough), ballot)
