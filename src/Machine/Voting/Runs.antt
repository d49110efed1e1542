-- ===== src/Machine/Voting/Runs.antt =====
-- The term and the vote over a run of a node of StateMachine.ts.
use compaction.Prelude.{ℕ, false, true, ◌≡◌, arith, List}
use compaction.Prelude.Exec.{ok}
use compaction.State.Persistent.{PersistentState}
use compaction.Machine.{Node, RequestVoteRequest, RequestVoteResponse}
use compaction.Machine.Elections.{handle_request_vote}
use compaction.Machine.Runs.{Event, run}
use compaction.Machine.Steps.Votes.{handle_request_vote-Within}
use compaction.Machine.Steps.Runs.{run-AllowsElection}
use compaction.Machine.Voting.{
  Later, Later-trans, newer, first_vote, unchanged, Advances, Advances-Allows,
  Advances-AllowsElection,
}
use compaction.Machine.Voting.Grants.{HasVoted, granted_vote_recorded}

-- Over any sequence of events, whether their handlers return or throw, the term of a node never
-- falls, and a vote is neither withdrawn nor changed within its term.
pub run-Later : (n : Node) (es : List Event) → Later n.persistent_state (run n es).persistent_state
run-Later n es = run-AllowsElection Advances Advances-Allows Advances-AllowsElection n es

same_vote :
    (p q : PersistentState) (r s : RequestVoteRequest)
    → Later p q
    → HasVoted r p
    → HasVoted s q
    → r.term ≡ s.term
    → r.candidate_id ≡ s.candidate_id
same_vote p q r s (newer a) h k e = absurd (omega arith)
same_vote p q r s (first_vote a b) h k e = ground arith
same_vote p q r s (unchanged a b) h k e = ground arith

-- Two votes that are no pre-votes and that one node grants in the same term, with any sequence of
-- events in between, whether their handlers return or throw, are for the same candidate.
pub vote_once :
    (n : Node) (now later : ℕ) (r s : RequestVoteRequest) (es : List Event)
    (a b : RequestVoteResponse)
    → r.pre_vote ≡ false
    → s.pre_vote ≡ false
    → r.term ≡ s.term
    → (handle_request_vote now r n).0 ≡ ok a
    → a.vote_granted ≡ true
    → (handle_request_vote later s (run (handle_request_vote now r n).1 es)).0 ≡ ok b
    → b.vote_granted ≡ true
    → r.candidate_id ≡ s.candidate_id
vote_once n now later r s es a b rr rs e ra ga rb gb =
    let m = (handle_request_vote now r n).1 in
    let m' = run m es in
    same_vote m.persistent_state (handle_request_vote later s m').1.persistent_state r s
      (Later-trans (run-Later m es)
        ((handle_request_vote-Within Advances Advances-Allows later s).at m' tt).0)
      (granted_vote_recorded now r n a rr ra ga) (granted_vote_recorded later s m' b rs rb gb) e
