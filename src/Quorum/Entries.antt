-- ===== src/Quorum/Entries.antt =====
-- The entries of the voters of a block, and what mermai_quorum_collector holds for the block.
use mermai_blockchain.Base.{
  ℕ, ◌+◌, ◌%◌, ◌≡◌, refl, sym, ap, subst, ◌∙◌, Bool, ◌||◌, true, false, List, [], ◌∷◌, ◌++◌, arith,
  Bool-cases, inl, inr, if◌then◌else◌,
}
use mermai_blockchain.Base.Words.{u64_mod, add64}
use mermai_blockchain.Base.Key.{Bytes, bytes_key, ◌==◌, ==_sound, ==_refl}
use mermai_blockchain.Base.Map.{find_or, find_or-insert}
use mermai_blockchain.Crypto.{Crypto}
use mermai_blockchain.Vote.{BlockVote, verify_vote_signature}
use mermai_blockchain.Quorum.{QuorumCollector, has_voted, get_votes, get_vote_stake, record_vote}
use mermai_blockchain.Quorum.Votes.{IsBallot, append-IsBallot}

-- A vote with the stake it counts for.
abbrev pub Entry : Type 0
Entry = BlockVote × ℕ

abbrev pub votes_of : List Entry → List BlockVote
votes_of [] = []
votes_of (e ∷ entries) = e.0 ∷ votes_of entries

abbrev pub stake_of : List Entry → ℕ
stake_of [] = 0
stake_of (e ∷ entries) = e.1 + stake_of entries

pub votes_of-append :
    (entries : List Entry) (e : Entry)
    → votes_of (entries ++ (e ∷ [])) ≡ votes_of entries ++ (e.0 ∷ [])
votes_of-append [] e = refl
votes_of-append (d ∷ entries) e = ap (λ votes. d.0 ∷ votes) (votes_of-append entries e)

pub stake_of-append :
    (entries : List Entry) (e : Entry) → stake_of (entries ++ (e ∷ [])) ≡ stake_of entries + e.1
stake_of-append [] e = omega arith
stake_of-append (d ∷ entries) e = omega (arith, stake_of-append entries e)

-- The validator has an entry.
unfoldable pub has_entry : Bytes → List Entry → Bool
has_entry address [] = false
has_entry address (e ∷ entries) = e.0.validator_address == address || has_entry address entries

has_voted-votes_of :
    (address : Bytes) (entries : List Entry)
    → has_voted address (votes_of entries) ≡ has_entry address entries
unfolding has_voted has_entry
has_voted-votes_of address [] = refl
has_voted-votes_of address (e ∷ entries) = ground (arith, has_voted-votes_of address entries)

-- A vote of a stake is entered for a block if it is for the block and its validator has no entry.
unfoldable pub enter_stake : Bytes → BlockVote → ℕ → List Entry → List Entry
enter_stake block_hash vote stake entries =
    if block_hash == vote.block_hash
    then (if has_entry vote.validator_address entries
        then entries
        else entries ++ ((vote, stake) ∷ []))
    else entries

-- What the collector holds for a block is what the entries say, the stake modulo 2^64.
pub record IsCounted (block_hash : Bytes) (entries : List Entry) (c : QuorumCollector)
    : Type 0 where
  pub votes : get_votes block_hash c ≡ votes_of entries
  pub stake : get_vote_stake block_hash c ≡ stake_of entries % u64_mod

pub same_block-IsCounted :
    (vote : BlockVote) (stake total : ℕ) (c : QuorumCollector) (entries : List Entry)
    → IsCounted vote.block_hash entries c
    → IsCounted vote.block_hash
        (enter_stake vote.block_hash vote stake entries)
        (record_vote vote stake total c)
unfolding record_vote get_votes get_vote_stake enter_stake
same_block-IsCounted vote stake total c entries w =
    let h = vote.block_hash in
    let self = ==_refl h in
    let votes = find_or [] h c.block_votes in
    let sum = add64 (find_or 0 h c.vote_stake_totals) stake in
    let read_votes = find_or-insert [] h h (votes ++ (vote ∷ [])) c.block_votes in
    let read_stake = find_or-insert 0 h h sum c.vote_stake_totals in
    let same =
      ap (λ list. has_voted vote.validator_address list) w.votes
      ∙ has_voted-votes_of vote.validator_address entries in
    let longer = votes_of-append entries (vote, stake) in
    let heavier = stake_of-append entries (vote, stake) in
    elim (Bool-cases (has_entry vote.validator_address entries)) [
      | inl voted ↦ rw (enter_stake, record_vote, same, self, voted) w
      | inr new ↦ record {
        votes = ground (arith, w.votes, self, new, same, longer, read_votes);
        stake = ground (arith, w.stake, self, new, same, heavier, read_stake);
      }
    ]

pub other_block-IsCounted :
    (vote : BlockVote) (stake total : ℕ) (c : QuorumCollector) (block_hash : Bytes)
    (entries : List Entry)
    → block_hash == vote.block_hash ≡ false
    → IsCounted block_hash entries c
    → IsCounted block_hash entries (record_vote vote stake total c)
unfolding record_vote get_votes get_vote_stake
other_block-IsCounted vote stake total c block_hash entries other w =
    let votes = find_or [] vote.block_hash c.block_votes in
    let sum = add64 (find_or 0 vote.block_hash c.vote_stake_totals) stake in
    let read_votes =
      find_or-insert [] block_hash vote.block_hash (votes ++ (vote ∷ [])) c.block_votes in
    let read_stake = find_or-insert 0 block_hash vote.block_hash sum c.vote_stake_totals in
    record {
      votes = ground (arith, w.votes, other, read_votes);
      stake = ground (arith, w.stake, other, read_stake);
    }

pub record_vote-IsCounted :
    (vote : BlockVote) (stake total : ℕ) (c : QuorumCollector) (block_hash : Bytes)
    (entries : List Entry)
    → IsCounted block_hash entries c
    → IsCounted block_hash
        (enter_stake block_hash vote stake entries)
        (record_vote vote stake total c)
unfolding enter_stake
record_vote-IsCounted vote stake total c block_hash entries w =
    elim (Bool-cases (block_hash == vote.block_hash)) [
      | inl same ↦
          let named = ==_sound block_hash vote.block_hash same in
          subst
            (λ h. IsCounted h (enter_stake h vote stake entries) (record_vote vote stake total c))
            (sym named)
            (same_block-IsCounted vote stake total c entries
              (subst (λ h. IsCounted h entries c) named w))
      | inr other ↦
          rw (enter_stake, other)
            (other_block-IsCounted vote stake total c block_hash entries other w)
    ]

pub enter_stake-IsBallot :
    (crypto : Crypto) (vote : BlockVote) (stake : ℕ) (block_hash : Bytes) (entries : List Entry)
    → verify_vote_signature crypto vote ≡ true
    → IsBallot crypto block_hash (votes_of entries)
    → IsBallot crypto block_hash (votes_of (enter_stake block_hash vote stake entries))
unfolding enter_stake
enter_stake-IsBallot crypto vote stake block_hash entries signed b =
    elim (Bool-cases (block_hash == vote.block_hash)) [
      | inr other ↦ rw (enter_stake, other) b
      | inl same ↦ (elim (Bool-cases (has_entry vote.validator_address entries)) [
        | inl voted ↦ rw (enter_stake, same, voted) b
        | inr new ↦
            rw (enter_stake, same, new, votes_of-append entries (vote, stake))
              (append-IsBallot crypto block_hash (votes_of entries) vote b
                (sym (==_sound block_hash vote.block_hash same), signed)
                (has_voted-votes_of vote.validator_address entries ∙ new))
      ])
    ]
