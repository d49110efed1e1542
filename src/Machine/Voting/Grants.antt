-- ===== src/Machine/Voting/Grants.antt =====
-- What a granted vote of StateMachine.ts leaves behind.
use compaction.Prelude.{ℕ, some, Bool, true, false, ◌≡◌, arith, if◌then◌else◌, opt_eq_iff}
use compaction.Prelude.Exec.{Exec, Result, ok, err, return, resume, ◌>>=◌}
use compaction.State.Persistent.{
  PersistentState, get_current_term, get_voted_for, update_term_and_vote,
}
use compaction.Log.Manager.Queries.{get_last_index, get_last_term}
use compaction.Machine.{Node, RequestVoteRequest, RequestVoteResponse}
use compaction.Machine.Elections.{answer_vote, grant_vote, decide_vote, handle_request_vote, answer}

-- The vote is recorded for the request's candidate and term.
abbrev pub HasVoted : RequestVoteRequest → PersistentState → Type 0
HasVoted r p = (p.current_term ≡ r.term) × (p.voted_for ≡ some r.candidate_id)

-- If the action answers with a vote, the vote is recorded.
record Records (r : RequestVoteRequest) (m : Exec Node RequestVoteResponse) : Type 0 where
  at :
      (n : Node) (a : RequestVoteResponse)
      → (m n).0 ≡ ok a
      → a.vote_granted ≡ true
      → HasVoted r (m n).1.persistent_state

Records-bind :
    {A : Type 0} (r : RequestVoteRequest) (m : Exec Node A) (f : A → Exec Node RequestVoteResponse)
    → ((a : A) → Records r (f a))
    → Records r (m >>= f)
Records-bind {A} r m f hf = record { at = λ n. go (m n) }
  where
    go :
        (x : Result A × Node) (a : RequestVoteResponse)
        → (resume f x).0 ≡ ok a
        → a.vote_granted ≡ true
        → HasVoted r (resume f x).1.persistent_state
    go (ok b, n') a e g = (hf b).at n' a e g
    go (err b, n') a e g = cc

Records-denial : (r : RequestVoteRequest) (t : ℕ) → Records r (return (answer t false))
Records-denial r t = record { at = λ n a e g. ground arith }

Records-if :
    (r : RequestVoteRequest) (b : Bool) (m k : Exec Node RequestVoteResponse)
    → Records r m
    → Records r k
    → Records r (if b then m else k)
Records-if r true m k hm hk = hm
Records-if r false m k hm hk = hk

Records-decide : (r : RequestVoteRequest) → Records r (decide_vote r)
unfolding decide_vote grant_vote get_voted_for get_current_term update_term_and_vote get_last_index
    get_last_term
Records-decide r = record {
  at = λ n a e g. ground (arith, opt_eq_iff n.persistent_state.voted_for (some r.candidate_id));
}

Records-real :
    (r : RequestVoteRequest) (b : Bool) (m k : Exec Node RequestVoteResponse)
    → b ≡ false
    → Records r k
    → Records r (if b then m else k)
Records-real r true m k real hk = cc
Records-real r false m k real hk = hk

Records-answer : (r : RequestVoteRequest) (t : ℕ) (s c : Bool) → Records r (answer_vote r t s c)
unfolding answer_vote
Records-answer r t s c = search (Records-bind, Records-if, Records-denial, Records-decide) depth 9

Records-handle :
    (now : ℕ) (r : RequestVoteRequest) → r.pre_vote ≡ false → Records r (handle_request_vote now r)
unfolding handle_request_vote
Records-handle now r real = search (Records-bind, Records-real, Records-answer) depth 9

-- When a vote request that is no pre-vote is answered with a vote, the node's term is the request's
-- and its recorded vote is for the candidate.
pub granted_vote_recorded :
    (now : ℕ) (r : RequestVoteRequest) (n : Node) (a : RequestVoteResponse)
    → r.pre_vote ≡ false
    → (handle_request_vote now r n).0 ≡ ok a
    → a.vote_granted ≡ true
    → HasVoted r (handle_request_vote now r n).1.persistent_state
granted_vote_recorded now r n a real e g = (Records-handle now r real).at n a e g
