-- ===== src/Quorum/Votes.antt =====
-- Who voted for a block, and when it is final.
use mermai_blockchain.Base.{
  ℕ, ◌*◌, ◌≤◌, ◌<◌, ◌≡◌, ◌≢◌, refl, sym, subst, ◌∙◌, true, false, some, List, [], ◌∷◌, ◌++◌, arith,
  Bool-cases, Option-cases, inl, inr, ◌⊎◌, All,
}
use mermai_blockchain.Base.Words.{u64_mod, add64}
use mermai_blockchain.Base.Key.{Bytes, bytes_key, nat_key, ◌==◌, bytes_beq_iff}
use mermai_blockchain.Base.Map.{find_or, find_or-insert}
use mermai_blockchain.Base.Set.{NotIn, Distinct, member-add}
use mermai_blockchain.Crypto.{Crypto}
use mermai_blockchain.Floats.{Floats}
use mermai_blockchain.Vote.{BlockVote, verify_vote_signature}
use mermai_blockchain.Staking.{TimeWeightedPos}
use mermai_blockchain.Staking.Engine.{get_total_active_stake}
use mermai_blockchain.Quorum.{
  QuorumCollector, has_voted, get_votes, get_vote_stake, is_block_finalized, reaches_quorum,
  record_vote, voter_stake, add_vote,
}

abbrev voters : List BlockVote → List Bytes
voters [] = []
voters (v ∷ votes) = v.validator_address ∷ voters votes

abbrev IsGenuine : Crypto → Bytes → BlockVote → Type 0
IsGenuine crypto block_hash v =
    (v.block_hash ≡ block_hash) × (verify_vote_signature crypto v ≡ true)

pub voter_stake-signed :
    (floats : Floats) (crypto : Crypto) (vote : BlockVote)
    (consensus : TimeWeightedPos floats.Float) (stake : ℕ)
    → voter_stake floats crypto vote consensus ≡ some stake
    → verify_vote_signature crypto vote ≡ true
unfolding voter_stake
voter_stake-signed floats crypto vote consensus stake h = ground arith

-- The votes that stand for a block: of that block, with valid signatures, no two of one validator.
pub record IsBallot (crypto : Crypto) (block_hash : Bytes) (votes : List BlockVote) : Type 0 where
  pub genuine : All (IsGenuine crypto block_hash) votes
  pub once : Distinct (voters votes)

has_voted-NotIn :
    (address : Bytes) (votes : List BlockVote)
    → has_voted address votes ≡ false
    → NotIn address (voters votes)
unfolding has_voted
has_voted-NotIn address [] h = tt
has_voted-NotIn address (v ∷ votes) h = (
  ground (arith, bytes_beq_iff v.validator_address address),
  has_voted-NotIn address votes (ground arith),
)

NotIn-append :
    (a b : Bytes) (votes : List BlockVote) (v : BlockVote)
    → v.validator_address ≡ b
    → NotIn a (voters votes)
    → a ≢ b
    → NotIn a (voters (votes ++ (v ∷ [])))
NotIn-append a b [] v e n d = ((λ s. d (s ∙ e)), tt)
NotIn-append a b (w ∷ votes) v e n d = (n.0, NotIn-append a b votes v e n.1 d)

Distinct-append :
    (votes : List BlockVote) (v : BlockVote)
    → Distinct (voters votes)
    → NotIn v.validator_address (voters votes)
    → Distinct (voters (votes ++ (v ∷ [])))
Distinct-append [] v u n = (tt, tt)
Distinct-append (w ∷ votes) v u n = (
  NotIn-append w.validator_address v.validator_address votes v refl u.0 (λ e. n.0 (sym e)),
  Distinct-append votes v u.1 n.1,
)

IsGenuine-append :
    (crypto : Crypto) (block_hash : Bytes) (votes : List BlockVote) (v : BlockVote)
    → All (IsGenuine crypto block_hash) votes
    → IsGenuine crypto block_hash v
    → All (IsGenuine crypto block_hash) (votes ++ (v ∷ []))
IsGenuine-append crypto block_hash [] v h p = (p, tt)
IsGenuine-append crypto block_hash (w ∷ votes) v h p =
    (h.0, IsGenuine-append crypto block_hash votes v h.1 p)

pub append-IsBallot :
    (crypto : Crypto) (block_hash : Bytes) (votes : List BlockVote) (v : BlockVote)
    → IsBallot crypto block_hash votes
    → IsGenuine crypto block_hash v
    → has_voted v.validator_address votes ≡ false
    → IsBallot crypto block_hash (votes ++ (v ∷ []))
append-IsBallot crypto block_hash votes v b g n = record {
  genuine = IsGenuine-append crypto block_hash votes v b.genuine g;
  once = Distinct-append votes v b.once (has_voted-NotIn v.validator_address votes n);
}

get_votes-record_vote :
    (vote : BlockVote) (stake total : ℕ) (c : QuorumCollector) (block_hash : Bytes)
    → (get_votes block_hash (record_vote vote stake total c) ≡ get_votes block_hash c)
      ⊎ (block_hash ≡ vote.block_hash)
        × (has_voted vote.validator_address (get_votes vote.block_hash c) ≡ false)
        × (get_votes block_hash (record_vote vote stake total c)
            ≡ get_votes vote.block_hash c ++ (vote ∷ []))
unfolding record_vote get_votes
get_votes-record_vote vote stake total c block_hash =
    let votes = find_or [] vote.block_hash c.block_votes in
    let law = find_or-insert [] block_hash vote.block_hash (votes ++ (vote ∷ [])) c.block_votes in
    elim (Bool-cases (has_voted vote.validator_address votes)) [
      | inl voted ↦ inl (ground arith)
      | inr new ↦ (elim (Bool-cases (block_hash == vote.block_hash)) [
        | inl same ↦
            inr ((bytes_beq_iff block_hash vote.block_hash).0 same, new, ground (arith, law))
        | inr differs ↦ inl (ground (arith, law))
      ])
    ]

-- The collector holds only ballots.
abbrev pub HoldsBallots : Crypto → QuorumCollector → Type 0
HoldsBallots crypto c = (block_hash : Bytes) → IsBallot crypto block_hash (get_votes block_hash c)

record_vote-HoldsBallots :
    (crypto : Crypto) (vote : BlockVote) (stake total : ℕ) (c : QuorumCollector)
    → verify_vote_signature crypto vote ≡ true
    → HoldsBallots crypto c
    → HoldsBallots crypto (record_vote vote stake total c)
record_vote-HoldsBallots crypto vote stake total c s v block_hash =
    elim (get_votes-record_vote vote stake total c block_hash) [
      | inl kept ↦ subst (λ votes. IsBallot crypto block_hash votes) (sym kept) (v block_hash)
      | inr (same, new, grown) ↦
          subst (λ votes. IsBallot crypto block_hash votes) (sym grown)
            (append-IsBallot crypto block_hash (get_votes vote.block_hash c) vote
              (subst (λ h. IsBallot crypto block_hash (get_votes h c)) same (v block_hash))
              (sym same, s) new)
    ]

-- Each call of `add_vote` leaves ballots, if there were only ballots.
pub add_vote-HoldsBallots :
    (floats : Floats) (crypto : Crypto) (vote : BlockVote)
    (consensus : TimeWeightedPos floats.Float) (c : QuorumCollector)
    → HoldsBallots crypto c
    → HoldsBallots crypto (add_vote floats crypto vote consensus c).0
unfolding add_vote
add_vote-HoldsBallots floats crypto vote consensus c v =
    let total = get_total_active_stake floats consensus in
    elim (Option-cases (voter_stake floats crypto vote consensus)) [
      | inl refused ↦ rw (refused, add_vote) v
      | inr (stake, found) ↦
          rw (found, add_vote)
            (record_vote-HoldsBallots crypto vote stake total c
              (voter_stake-signed floats crypto vote consensus stake found) v)
    ]

pub record_vote_finalizes :
    (vote : BlockVote) (stake total : ℕ) (c : QuorumCollector) (block_hash : Bytes)
    → is_block_finalized block_hash c ≡ false
    → is_block_finalized block_hash (record_vote vote stake total c) ≡ true
    → (block_hash ≡ vote.block_hash)
      × (reaches_quorum (get_vote_stake block_hash (record_vote vote stake total c)) total ≡ true)
unfolding record_vote is_block_finalized get_vote_stake
record_vote_finalizes vote stake total c block_hash before after =
    let sum = add64 (find_or 0 vote.block_hash c.vote_stake_totals) stake in
    let added = member-add block_hash vote.block_hash c.finalized_blocks in
    let law = find_or-insert 0 block_hash vote.block_hash sum c.vote_stake_totals in
    let same : block_hash ≡ vote.block_hash =
      ground (arith, added, bytes_beq_iff block_hash vote.block_hash) in
    (same, ground (arith, added, law, bytes_beq_iff block_hash vote.block_hash))

pub reaches_quorum_bounds :
    (stake total : ℕ)
    → reaches_quorum stake total ≡ true
    → total * 2 < u64_mod
    → stake * 3 < u64_mod
    → (0 < total) × (total * 2 ≤ stake * 3)
unfolding reaches_quorum
reaches_quorum_bounds stake total h small fits = ground arith
