-- ===== src/Governance.antt =====
-- `mermai_governance_engine`: include/mermai/mermai_governance.hpp and
-- src/consensus/mermai_governance.cpp.
pub mod Ballots
mod Tests
use mermai_blockchain.Base.{
  ℕ, zero, suc, Bool, true, false, ◌&&◌, ◌||◌, not, Option, none, some, List, [], ◌∷◌, ltb, length,
  is_empty, if◌then◌else◌,
}
use mermai_blockchain.Base.Words.{add64, add32}
use mermai_blockchain.Base.Key.{Bytes, bytes_key, nat_key, ◌==◌}
use mermai_blockchain.Base.Map.{Map, find, contains, insert, values}
use mermai_blockchain.Floats.{Floats}

pub data ProposalStatus : Type 0 where
  active : ProposalStatus
  passed : ProposalStatus
  rejected : ProposalStatus
  executed : ProposalStatus

pub data ProposalType : Type 0 where
  parameter_change : ProposalType
  text_proposal : ProposalType
  community_grant : ProposalType

pub record GovernanceProposal : Type 0 where
  pub id : ℕ
  pub proposer : Bytes
  pub title : Bytes
  pub description : Bytes
  pub type_of : ProposalType
  pub status : ProposalStatus
  pub target_parameter : Bytes
  pub new_parameter_value : ℕ
  pub start_block : ℕ
  pub end_block : ℕ
  pub votes_yes : ℕ
  pub votes_no : ℕ
  pub votes_abstain : ℕ
  pub voter_records : Map Bytes Bool

-- The other members are constants; `min_proposal_deposit` is not used.
pub record GovernanceEngine : Type 0 where
  pub proposals : Map ℕ GovernanceProposal
  pub next_proposal_id : ℕ

abbrev pub voting_period_blocks : ℕ
voting_period_blocks = 100

unfoldable pub new_engine : GovernanceEngine
new_engine = record { proposals = []; next_proposal_id = 1 }

unfoldable pub is_active : ProposalStatus → Bool
is_active active = true
is_active passed = false
is_active rejected = false
is_active executed = false

-- The proposal that `create_proposal` stores.
unfoldable pub opened :
    ℕ → Bytes → Bytes → Bytes → ProposalType → ℕ → Bytes → ℕ → GovernanceProposal
opened pid proposer title description type_of current_block target_param new_val = record {
  id = pid;
  proposer = proposer;
  title = title;
  description = description;
  type_of = type_of;
  status = active;
  target_parameter = target_param;
  new_parameter_value = new_val;
  start_block = current_block;
  end_block = add32 current_block voting_period_blocks;
  votes_yes = 0;
  votes_no = 0;
  votes_abstain = 0;
  voter_records = [];
}

-- The id of the new proposal; 0 is a refusal.
unfoldable pub create_proposal :
    Bytes → Bytes → Bytes → ProposalType → ℕ → Bytes → ℕ → GovernanceEngine → GovernanceEngine × ℕ
unfolding opened
create_proposal proposer title description type_of current_block target_param new_val g =
    let pid = g.next_proposal_id in
    let p = opened pid proposer title description type_of current_block target_param new_val in
    if is_empty proposer || is_empty title
    then (g, 0)
    else (record { proposals = insert pid p g.proposals; next_proposal_id = add64 pid 1 }, pid)

-- The ballot, once it is admitted.
unfoldable pub cast : Bytes → ℕ → Bool → GovernanceProposal → GovernanceProposal
cast voter stake support p = record p {
  voter_records = insert voter support p.voter_records;
  votes_yes = if support then add64 p.votes_yes stake else p.votes_yes;
  votes_no = if support then p.votes_no else add64 p.votes_no stake;
}

unfoldable pub may_vote : Bytes → ℕ → GovernanceProposal → Bool
unfolding is_active
may_vote voter current_block p =
    is_active p.status
    && (not (ltb p.end_block current_block) && not (contains voter p.voter_records))

unfoldable pub vote : ℕ → Bytes → ℕ → Bool → ℕ → GovernanceEngine → GovernanceEngine × Bool
unfolding cast may_vote
vote proposal_id voter stake support current_block g = elim (find proposal_id g.proposals) [
  | none ↦ (g, false)
  | some p ↦
      if may_vote voter current_block p
      then (
        record g { proposals = insert proposal_id (cast voter stake support p) g.proposals },
        true,
      )
      else (g, false)
]

-- `votes_yes + votes_no + votes_abstain`
unfoldable pub total_voted : GovernanceProposal → ℕ
total_voted p = add64 (add64 p.votes_yes p.votes_no) p.votes_abstain

-- The status of a proposal that passed.
unfoldable pub settled : ProposalType → ProposalStatus
settled parameter_change = executed
settled text_proposal = passed
settled community_grant = passed

module _ (floats : Floats) where
  -- The participation is below the quorum of 0.40.
  unfoldable pub below_quorum : ℕ → GovernanceProposal → Bool
  unfolding total_voted
  below_quorum total_active_stake p =
      ltb 0 total_active_stake
      && floats.lt (floats.div (floats.of_nat (total_voted p)) (floats.of_nat total_active_stake))
          (floats.ratio 40 100)

  -- More than the share of 0.50 voted yes.
  unfoldable pub has_majority : GovernanceProposal → Bool
  unfolding total_voted
  has_majority p =
      ltb 0 (total_voted p)
      && floats.lt (floats.ratio 50 100)
          (floats.div (floats.of_nat p.votes_yes) (floats.of_nat (total_voted p)))

  -- The outcome of a proposal whose voting period is over.
  unfoldable pub outcome : ℕ → GovernanceProposal → ProposalStatus × Bool
  unfolding below_quorum has_majority settled
  outcome total_active_stake p =
      if below_quorum total_active_stake p
      then (rejected, false)
      else if has_majority p
      then (settled p.type_of, true)
      else (rejected, false)

  unfoldable pub tally_and_execute : ℕ → ℕ → ℕ → GovernanceEngine → GovernanceEngine × Bool
  unfolding is_active outcome
  tally_and_execute proposal_id current_block total_active_stake g =
      elim (find proposal_id g.proposals) [
        | none ↦ (g, false)
        | some p ↦
            let result = outcome total_active_stake p in
            if not (is_active p.status)
            then (g, false)
            else if ltb current_block p.end_block
            then (g, false)
            else (
              record g {
                proposals = insert proposal_id (record p { status = result.0 }) g.proposals;
              },
              result.1,
            )
      ]

unfoldable pub get_proposal : ℕ → GovernanceEngine → Option GovernanceProposal
get_proposal proposal_id g = find proposal_id g.proposals

unfoldable pub get_all_proposals : GovernanceEngine → List GovernanceProposal
get_all_proposals g = values g.proposals

unfoldable pub get_proposal_count : GovernanceEngine → ℕ
get_proposal_count g = length g.proposals

-- The calls that change the engine.
pub data Call : Type 0 where
  creates : Bytes → Bytes → Bytes → ProposalType → ℕ → Bytes → ℕ → Call
  votes : ℕ → Bytes → ℕ → Bool → ℕ → Call
  tallies : ℕ → ℕ → ℕ → Call

unfoldable pub apply : Floats → GovernanceEngine → Call → GovernanceEngine
unfolding create_proposal vote tally_and_execute
apply floats g (creates proposer title description type_of current_block target new_val) =
    (create_proposal proposer title description type_of current_block target new_val g).0
apply floats g (votes proposal_id voter stake support current_block) =
    (vote proposal_id voter stake support current_block g).0
apply floats g (tallies proposal_id current_block total_active_stake) =
    (tally_and_execute floats proposal_id current_block total_active_stake g).0

unfoldable pub run : Floats → GovernanceEngine → List Call → GovernanceEngine
unfolding apply
run floats g [] = g
run floats g (c ∷ cs) = run floats (apply floats g c) cs
