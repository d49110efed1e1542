-- ===== src/Machine/Leadership/Elected.antt =====
-- The way to leadership in StateMachine.ts.
use compaction.Prelude.{
  refl, ◌≤◌, ◌≡◌, ◌⊎◌, inl, inr, true, none, length, add_to_set, arith, not, ◌||◌, ltb, ◌==◌,
  if◌then◌else◌, Bool-cases,
}
use compaction.Prelude.Exec.{ok}
use compaction.Storage.Meta.{NodeId}
use compaction.State.Persistent.{PersistentState, get_current_term}
use compaction.Machine.{Node, RequestVoteResponse, candidate, leader, same_state}
use compaction.Machine.Roles.{become_follower}
use compaction.Machine.Elections.{handle_request_vote_response, count_vote}
use compaction.Machine.Runs.{
  Event, step, request_vote, append_entries, install_snapshot, vote_answer, pre_vote_answer,
  append_answer, election_timeout, heartbeat, starting, stopping,
}
use compaction.Machine.Leadership.{Stays, Stays-Allows, become_follower-Stays}
use compaction.Machine.Steps.Runs.{step-Allows}

-- The event is a granted vote in the candidate's term, and completes the votes that it needs.
pub data IsElected (n : Node) : Event → Type 0 where
  by_vote :
      (from : NodeId) (r : RequestVoteResponse)
      → n.current_state ≡ candidate
      → r.term ≡ n.persistent_state.current_term
      → r.vote_granted ≡ true
      → n.votes_needed ≤ length (add_to_set from n.votes_received)
      → IsElected n (vote_answer from r)

abbrev Won : NodeId → RequestVoteResponse → Node → Type 0
Won from r n =
    (n.current_state ≡ candidate)
    × (r.term ≡ n.persistent_state.current_term)
    × (r.vote_granted ≡ true)
    × (n.votes_needed ≤ length (add_to_set from n.votes_received))

pub get_current_term_lem :
    (p : PersistentState) → p.initialized ≡ true → get_current_term p ≡ (ok p.current_term, p)
unfolding get_current_term
get_current_term_lem p h = ground arith

pub known_term_answer :
    (from : NodeId) (r : RequestVoteResponse) (n : Node)
    → n.persistent_state.initialized ≡ true
    → handle_request_vote_response from r n ≡ (
        if ltb n.persistent_state.current_term r.term
        then become_follower r.term none n
        else if not (same_state n.current_state candidate)
            || not (r.term == n.persistent_state.current_term)
        then (ok tt, n)
        else if r.vote_granted
        then count_vote from n
        else (ok tt, n))
unfolding handle_request_vote_response
known_term_answer from r n h =
    rw (get_current_term_lem n.persistent_state h)
      (elim (Bool-cases (ltb n.persistent_state.current_term r.term)) [
        | inl higher ↦ rw higher refl
        | inr other ↦
            rw other
              (elim (Bool-cases (
                not (same_state n.current_state candidate)
                || not (r.term == n.persistent_state.current_term))) [
                  | inl ignored ↦ rw ignored refl
                  | inr counted ↦ rw counted (elim (Bool-cases r.vote_granted) [
                    | inl granted ↦ rw granted refl
                    | inr denied ↦ rw denied refl
                  ])
                ])
      ])

count_vote-Won :
    (from : NodeId) (r : RequestVoteResponse) (n : Node)
    → n.current_state ≡ candidate
    → r.term ≡ n.persistent_state.current_term
    → r.vote_granted ≡ true
    → (count_vote from n).1.current_state ≡ leader
    → Won from r n
unfolding count_vote
count_vote-Won from r n c t g h = (c, t, g, ground arith)

-- What the handler needs to have found, if the node leads afterwards and did not before.
vote_answer_outcome :
    (from : NodeId) (r : RequestVoteResponse) (n : Node)
    → (handle_request_vote_response from r n).1.current_state ≡ leader
    → (n.current_state ≡ leader) ⊎ Won from r n
vote_answer_outcome from r n h = elim (Bool-cases n.persistent_state.initialized) [
  | inl ready ↦ ground (
    arith,
    known_term_answer from r n ready,
    become_follower-Stays r.term none n,
    count_vote-Won from r n,
  )
  | inr fresh ↦ inl (unfold handle_request_vote_response get_current_term in ground arith)
]

-- If an event makes a leader of a node that was none, then the event is an answer to a vote
-- request, the node was a candidate in the term of the answer, the answer granted the vote, and the
-- voters that were counted, the sender included, are at least as many as the node needed.
pub leader_by_votes :
    (n : Node) (e : Event)
    → (step n e).current_state ≡ leader
    → (n.current_state ≡ leader) ⊎ IsElected n e
leader_by_votes n (vote_answer p r) h = elim (vote_answer_outcome p r n (unfold step in h)) [
  | inl before ↦ inl before
  | inr (c, t, g, v) ↦ inr (by_vote p r c t g v)
]
leader_by_votes n (request_vote now r) h =
    inl (step-Allows Stays Stays-Allows n (request_vote now r) tt h)
leader_by_votes n (append_entries now r) h =
    inl (step-Allows Stays Stays-Allows n (append_entries now r) tt h)
leader_by_votes n (install_snapshot f now p r) h =
    inl (step-Allows Stays Stays-Allows n (install_snapshot f now p r) tt h)
leader_by_votes n (pre_vote_answer p r) h =
    inl (step-Allows Stays Stays-Allows n (pre_vote_answer p r) tt h)
leader_by_votes n (append_answer p r) h =
    inl (step-Allows Stays Stays-Allows n (append_answer p r) tt h)
leader_by_votes n election_timeout h = inl (step-Allows Stays Stays-Allows n election_timeout tt h)
leader_by_votes n heartbeat h = inl (step-Allows Stays Stays-Allows n heartbeat tt h)
leader_by_votes n starting h = inl (step-Allows Stays Stays-Allows n starting tt h)
leader_by_votes n stopping h = inl (step-Allows Stays Stays-Allows n stopping tt h)
