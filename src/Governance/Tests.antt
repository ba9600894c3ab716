-- ===== src/Governance/Tests.antt =====
-- A vote and a settled proposal.
use mermai_blockchain.Base.{◌≡◌, refl, true, false, some, List, [], ◌∷◌, arith}
use mermai_blockchain.Base.Key.{Bytes, bytes_beq}
use mermai_blockchain.Base.Map.{find, contains, insert}
use mermai_blockchain.Floats.Sample.{sample_floats}
use mermai_blockchain.Governance.{
  GovernanceEngine, GovernanceProposal, new_engine, create_proposal, vote, text_proposal, executed,
  opened, is_active, get_proposal, Call, creates, votes, tallies, run,
}
use mermai_blockchain.Governance.Ballots.{vote_once, run_settled}

abbrev alice : Bytes
alice = 97 ∷ []

abbrev proposed : GovernanceEngine
proposed = (create_proposal alice (116 ∷ []) [] text_proposal 10 [] 0 new_engine).0

abbrev calls : List Call
calls =
    votes 1 (98 ∷ []) 5 false 20
    ∷ creates alice (117 ∷ []) [] text_proposal 20 [] 0
    ∷ tallies 1 110 100
    ∷ []

vote_once_example :
    (vote 1 alice 9 false 60 (run sample_floats (vote 1 alice 70 true 50 proposed).0 calls)).1
    ≡ false
unfolding create_proposal new_engine vote find contains insert bytes_beq
vote_once_example =
    vote_once sample_floats proposed 1 alice 70 9 true false 50 60 calls refl (omega arith)
      (omega arith)

abbrev done : GovernanceProposal
done = record (opened 1 alice (116 ∷ []) [] text_proposal 10 [] 0) { status = executed }

abbrev settled_engine : GovernanceEngine
settled_engine = record { proposals = (1, done) ∷ []; next_proposal_id = 2 }

run_settled_example : get_proposal 1 (run sample_floats settled_engine calls) ≡ some done
unfolding get_proposal find opened is_active
run_settled_example =
    run_settled sample_floats settled_engine calls 1 done refl refl (omega arith) (omega arith)
