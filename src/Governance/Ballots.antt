-- ===== src/Governance/Ballots.antt =====
-- Each voter counts once, and a settled proposal stays as it is.
use mermai_blockchain.Base.{
  ℕ, ◌+◌, ◌≤◌, ◌<◌, ◌≡◌, ◌≢◌, Bool, true, false, some, List, [], ◌∷◌, arith, ltb, length,
  Bool-cases, Option-cases, inl, inr,
}
use mermai_blockchain.Base.Words.{u64_mod}
use mermai_blockchain.Base.Key.{Bytes, bytes_key, nat_key, ◌==◌, ==_refl, ==_sound, bytes_beq_iff}
use mermai_blockchain.Base.Map.{find, contains-eq-true, insert, find-insert}
use mermai_blockchain.Floats.{Floats}
use mermai_blockchain.Governance.{
  GovernanceProposal, GovernanceEngine, is_active, opened, create_proposal, cast, may_vote, vote,
  outcome, tally_and_execute, get_proposal, Call, creates, votes, tallies, apply, run,
}

-- A call keeps a proposal that is settled.
keeps_settled :
    (floats : Floats) (g : GovernanceEngine) (c : Call) (pid : ℕ) (p : GovernanceProposal)
    → get_proposal pid g ≡ some p
    → is_active p.status ≡ false
    → pid ≢ g.next_proposal_id
    → get_proposal pid (apply floats g c) ≡ some p
unfolding apply get_proposal create_proposal vote tally_and_execute may_vote
keeps_settled floats g (creates proposer title description type_of block target new_val) pid p f s
      d =
    ground (
      arith,
      find-insert pid g.next_proposal_id
          (opened g.next_proposal_id proposer title description type_of block target new_val)
          g.proposals,
    )
keeps_settled floats g (votes id voter stake support block) pid p f s d =
    elim (Option-cases (find id g.proposals)) [
      | inl missing ↦ ground arith
      | inr (q, found) ↦ ground (arith, find-insert pid id (cast voter stake support q) g.proposals)
    ]
keeps_settled floats g (tallies id block total) pid p f s d =
    elim (Option-cases (find id g.proposals)) [
      | inl missing ↦ ground arith
      | inr (q, found) ↦
          ground (
            arith,
            find-insert pid id (record q { status = (outcome floats total q).0 }) g.proposals,
          )
    ]

next_proposal_id_bounds :
    (floats : Floats) (g : GovernanceEngine) (c : Call)
    → g.next_proposal_id + 1 < u64_mod
    → (g.next_proposal_id ≤ (apply floats g c).next_proposal_id)
      × ((apply floats g c).next_proposal_id ≤ g.next_proposal_id + 1)
unfolding apply create_proposal vote tally_and_execute
next_proposal_id_bounds floats g (creates proposer title d t block target new_val) h = ground arith
next_proposal_id_bounds floats g (votes id voter stake support block) h = ground arith
next_proposal_id_bounds floats g (tallies id block total) h = ground arith

-- Once a proposal has passed, was rejected or is executed, no call changes it any more, as long as
-- the ids of new proposals stay below 2^64.
pub run_settled :
    (floats : Floats) (g : GovernanceEngine) (cs : List Call) (pid : ℕ) (p : GovernanceProposal)
    → get_proposal pid g ≡ some p
    → is_active p.status ≡ false
    → pid < g.next_proposal_id
    → g.next_proposal_id + length cs < u64_mod
    → get_proposal pid (run floats g cs) ≡ some p
unfolding run
run_settled floats g [] pid p f s b r = f
run_settled floats g (c ∷ cs) pid p f s b r =
    let step = next_proposal_id_bounds floats g c (omega arith) in
    run_settled floats (apply floats g c) cs pid p
      (keeps_settled floats g c pid p f s (λ e. omega arith)) s (omega (arith, step))
      (omega (arith, step))

-- The voter's ballot is on record.
abbrev HasVoted : ℕ → Bytes → GovernanceEngine → Type 0
HasVoted pid voter g =
    (p : GovernanceProposal) × (support : Bool) × (get_proposal pid g ≡ some p)
    × (find voter p.voter_records ≡ some support)

cast_HasVoted :
    (voter other : Bytes) (stake : ℕ) (support ballot : Bool) (p : GovernanceProposal)
    → find voter p.voter_records ≡ some ballot
    → (kept : Bool) × (find voter (cast other stake support p).voter_records ≡ some kept)
unfolding cast
cast_HasVoted voter other stake support ballot p f = elim (Bool-cases (voter == other)) [
  | inl same ↦ (support, ground (arith, find-insert voter other support p.voter_records))
  | inr differs ↦ (ballot, ground (arith, find-insert voter other support p.voter_records))
]

-- A proposal that is stored again with its ballots, or more, keeps them.
stored-HasVoted :
    (g h : GovernanceEngine) (pid id : ℕ) (voter : Bytes) (q changed : GovernanceProposal)
    → find id g.proposals ≡ some q
    → h.proposals ≡ insert id changed g.proposals
    → ((ballot : Bool)
        → find voter q.voter_records ≡ some ballot
        → (kept : Bool) × (find voter changed.voter_records ≡ some kept))
    → HasVoted pid voter g
    → HasVoted pid voter h
unfolding get_proposal
stored-HasVoted g h pid id voter q changed found stored keeps (p, b, f, r) =
    let law = find-insert pid id changed g.proposals in
    elim (Bool-cases (pid == id)) [
      | inl same ↦
          let here : pid ≡ id = ==_sound pid id same in
          let still = keeps b (ground arith) in
          (changed, still.0, rw stored (ground (arith, law)), still.1)
      | inr differs ↦ (p, b, rw stored (ground (arith, law)), r)
    ]

-- A call keeps the ballots that are on record.
apply-HasVoted :
    (floats : Floats) (g : GovernanceEngine) (c : Call) (pid : ℕ) (voter : Bytes)
    → HasVoted pid voter g
    → pid ≢ g.next_proposal_id
    → HasVoted pid voter (apply floats g c)
unfolding apply get_proposal create_proposal vote tally_and_execute
apply-HasVoted floats g (creates proposer title d t block target new_val) pid voter (p, b, f, r) n =
    let law =
      find-insert pid g.next_proposal_id
        (opened g.next_proposal_id proposer title d t block target new_val) g.proposals in
    (p, b, ground (arith, law), r)
apply-HasVoted floats g (votes id other stake support block) pid voter v n =
    elim (Option-cases (find id g.proposals)) [
      | inl missing ↦ (v.0, v.1, ground (arith, v.2), v.3)
      | inr (q, found) ↦ (elim (Bool-cases (may_vote other block q)) [
        | inl admitted ↦
            stored-HasVoted g (vote id other stake support block g).0 pid id voter q
              (cast other stake support q) found (ground arith)
              (λ ballot f. cast_HasVoted voter other stake support ballot q f) v
        | inr refused ↦ (v.0, v.1, ground (arith, v.2), v.3)
      ])
    ]
apply-HasVoted floats g (tallies id block total) pid voter v n =
    elim (Option-cases (find id g.proposals)) [
      | inl missing ↦ (v.0, v.1, ground (arith, v.2), v.3)
      | inr (q, found) ↦ (elim (Bool-cases (is_active q.status)) [
        | inr settled ↦ (v.0, v.1, ground (arith, v.2), v.3)
        | inl live ↦ (elim (Bool-cases (ltb block q.end_block)) [
          | inl early ↦ (v.0, v.1, ground (arith, v.2), v.3)
          | inr over ↦
              stored-HasVoted g (tally_and_execute floats id block total g).0 pid id voter q
                (record q { status = (outcome floats total q).0 }) found (ground arith)
                (λ ballot f. (ballot, f)) v
        ])
      ])
    ]

run-HasVoted :
    (floats : Floats) (g : GovernanceEngine) (cs : List Call) (pid : ℕ) (voter : Bytes)
    → HasVoted pid voter g
    → pid < g.next_proposal_id
    → g.next_proposal_id + length cs < u64_mod
    → HasVoted pid voter (run floats g cs)
unfolding run
run-HasVoted floats g [] pid voter v b r = v
run-HasVoted floats g (c ∷ cs) pid voter v b r =
    let step = next_proposal_id_bounds floats g c (omega arith) in
    run-HasVoted floats (apply floats g c) cs pid voter
      (apply-HasVoted floats g c pid voter v (λ e. omega arith)) (omega (arith, step))
      (omega (arith, step))

vote-HasVoted :
    (pid : ℕ) (voter : Bytes) (stake : ℕ) (support : Bool) (block : ℕ) (g : GovernanceEngine)
    → (vote pid voter stake support block g).1 ≡ true
    → HasVoted pid voter (vote pid voter stake support block g).0
unfolding vote cast get_proposal
vote-HasVoted pid voter stake support block g h = elim (Option-cases (find pid g.proposals)) [
  | inl missing ↦ absurd (ground arith)
  | inr (q, found) ↦
      let law = find-insert pid pid (cast voter stake support q) g.proposals in
      let own = find-insert voter voter support q.voter_records in
      (
        cast voter stake support q,
        support,
        ground (arith, law, ==_refl pid),
        ground (arith, own, bytes_beq_iff voter voter),
      )
]

HasVoted-vote :
    (pid : ℕ) (voter : Bytes) (stake : ℕ) (support : Bool) (block : ℕ) (g : GovernanceEngine)
    → HasVoted pid voter g
    → (vote pid voter stake support block g).1 ≡ false
unfolding vote get_proposal may_vote
HasVoted-vote pid voter stake support block g (p, b, f, r) =
    ground (arith, contains-eq-true voter b p.voter_records r)

-- After an accepted vote, any other vote of the same voter on the same proposal is refused,
-- whatever calls come between them, as long as the ids of new proposals stay below 2^64.
pub vote_once :
    (floats : Floats) (g : GovernanceEngine) (pid : ℕ) (voter : Bytes) (stake again : ℕ)
    (support changed : Bool) (block later : ℕ) (between : List Call)
    → (vote pid voter stake support block g).1 ≡ true
    → pid < (vote pid voter stake support block g).0.next_proposal_id
    → (vote pid voter stake support block g).0.next_proposal_id + length between < u64_mod
    → (vote pid voter again changed later
        (run floats (vote pid voter stake support block g).0 between)).1
      ≡ false
vote_once floats g pid voter stake again support changed block later between h b r =
    let after = (vote pid voter stake support block g).0 in
    HasVoted-vote pid voter again changed later (run floats after between) (
      run-HasVoted floats after between pid voter (vote-HasVoted pid voter stake support block g h)
        b r)
