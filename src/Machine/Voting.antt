-- ===== src/Machine/Voting.antt =====
-- How the term and the vote of a node of StateMachine.ts change.
pub mod Grants
pub mod Runs
use compaction.Prelude.{
  ◌∷◌, ap, ℕ, ◌+◌, ◌<◌, Option, none, some, true, ◌≡◌, refl, arith, ◌⊎◌, inl, inr, opt_eq_iff,
}
use compaction.Storage.Meta.{NodeId}
use compaction.State.Persistent.{
  PersistentState, get_current_term, get_voted_for, update_term_and_vote,
}
use compaction.Machine.{Node, RequestVoteRequest}
use compaction.Machine.Roles.{become_follower, stand_for_election, stop}
use compaction.Machine.Elections.{can_grant, decide_vote, grant_vote}
use compaction.Machine.Steps.{Frame, Carries, Allows}
use compaction.Machine.Steps.Answers.{AllowsElection}

-- The term grew, or it is the same and no vote in it was changed.
pub data Later (p q : PersistentState) : Type 0 where
  newer : p.current_term < q.current_term → Later p q
  first_vote : q.current_term ≡ p.current_term → p.voted_for ≡ none → Later p q
  unchanged : q.current_term ≡ p.current_term → q.voted_for ≡ p.voted_for → Later p q

abbrev LaterCases : PersistentState → PersistentState → Type 0
LaterCases p q =
    (p.current_term < q.current_term)
    ⊎ ((q.current_term ≡ p.current_term) × ((p.voted_for ≡ none) ⊎ (q.voted_for ≡ p.voted_for)))

of_cases : {p q : PersistentState} → LaterCases p q → Later p q
of_cases (inl a) = newer a
of_cases (inr (a, inl b)) = first_vote a b
of_cases (inr (a, inr b)) = unchanged a b

pub Later-refl : (p : PersistentState) → Later p p
Later-refl p = unchanged refl refl

pub Later-trans : {p q r : PersistentState} → Later p q → Later q r → Later p r
Later-trans (newer a) (newer b) = newer (omega arith)
Later-trans (newer a) (first_vote b c) = newer (omega arith)
Later-trans (newer a) (unchanged b c) = newer (omega arith)
Later-trans (first_vote a b) (newer c) = newer (omega arith)
Later-trans (first_vote a b) (first_vote c d) = first_vote (omega arith) b
Later-trans (first_vote a b) (unchanged c d) = first_vote (omega arith) b
Later-trans (unchanged a b) (newer c) = newer (omega arith)
Later-trans (unchanged a b) (first_vote c d) = first_vote (omega arith) (ground arith)
Later-trans (unchanged a b) (unchanged c d) = unchanged (omega arith) (ground arith)

-- A newer term, with any vote.
update_newer :
    (t : ℕ) (v : Option NodeId) (p : PersistentState)
    → p.current_term < t
    → Later p (update_term_and_vote t v p).1
unfolding update_term_and_vote
update_newer t v p h = of_cases (ground arith)

-- A vote where there was none, or the same again.
update_vote :
    (t : ℕ) (c : NodeId) (p : PersistentState)
    → can_grant p.voted_for c ≡ true
    → Later p (update_term_and_vote t (some c) p).1
unfolding update_term_and_vote
update_vote t c p h = of_cases (ground (arith, opt_eq_iff p.voted_for (some c)))

-- The second node has the later term and vote.
abbrev pub Advances : Node → Node → Type 0
Advances n n' = Later n.persistent_state n'.persistent_state

Advances-Frame : (n n' : Node) → Frame n n' → Advances n n'
Advances-Frame n n' f =
    unchanged (ap (λ (p : PersistentState). p.current_term) f.persistent_state)
      (ap (λ (p : PersistentState). p.voted_for) f.persistent_state)

become_follower-Advances :
    (t : ℕ) (l : Option NodeId) (n : Node) → Advances n (become_follower t l n).1
unfolding become_follower get_current_term
become_follower-Advances t l n = of_cases (ground (arith, update_newer t none n.persistent_state))

stand-Advances : (n : Node) → Advances n (stand_for_election n).1
unfolding stand_for_election get_current_term
stand-Advances n = of_cases (
    ground (
      arith,
      update_newer (n.persistent_state.current_term + 1) (some n.node_id) n.persistent_state,
    ))

decide_vote-Advances : (r : RequestVoteRequest) (n : Node) → Advances n (decide_vote r n).1
unfolding decide_vote grant_vote get_voted_for get_current_term
decide_vote-Advances r n =
    of_cases (ground (arith, update_vote r.term r.candidate_id n.persistent_state))

stop-Advances : (n : Node) → Advances n (stop n).1
unfolding stop
stop-Advances n = Later-refl n.persistent_state

Advances-Carries : Carries Advances
Advances-Carries = record {
  same = λ n. Later-refl n.persistent_state;
  trans = λ a b c p q. Later-trans p q;
  frame = Advances-Frame;
}

pub Advances-Allows : Allows Advances
Advances-Allows = record {
  carries = Advances-Carries;
  logs = λ n l k. Later-refl n.persistent_state;
  commits = λ n c e r. Later-refl n.persistent_state;
  reconfigures = λ n c e r. Later-refl n.persistent_state;
  retires = become_follower-Advances;
  stands = λ n e. stand-Advances n;
  decides = λ r n e. decide_vote-Advances r n;
  stops = stop-Advances;
}

pub Advances-AllowsElection : AllowsElection Advances
Advances-AllowsElection = record {
  counts = λ n v. Later-refl n.persistent_state;
  leads = λ i n. Later-refl n.persistent_state;
}
