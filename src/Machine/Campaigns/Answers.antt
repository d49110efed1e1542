-- ===== src/Machine/Campaigns/Answers.antt =====
-- What an answer to a vote request does to the votes that a node of StateMachine.ts has collected.
use compaction.Prelude.{
  if◌then◌else◌, ℕ, none, ◌≤◌, ◌<◌, ◌≡◌, ◌⊎◌, inl, inr, refl, true, false, Bool, arith, not, ◌||◌,
  ◌&&◌, ltb, leb, ◌==◌, length, add_to_set, Bool-cases, ◌∙◌, ap, [],
}
use compaction.Prelude.Exec.{ok}
use compaction.Storage.Meta.{NodeId}
use compaction.Config.{is_voter}
use compaction.Machine.{Node, log, RequestVoteResponse, candidate, leader, same_state}
use compaction.Log.Manager.{append_noop_entry}
use compaction.Machine.Roles.{become_follower, become_leader}
use compaction.Machine.Elections.{count_vote, handle_request_vote_response}
use compaction.Machine.Ready.{IsFollowing, IsReady}
use compaction.Machine.Ready.Candidacy.{voter_lem}
use compaction.Machine.Ready.Runs.{StaysReady, StaysReady-Allows, StaysReady-AllowsElection}
use compaction.Machine.Steps.{Carries, Within, Anyone}
use compaction.Machine.Steps.Answers.{
  office-Within, handle_request_vote_response-Within, take_office, lead,
}
use compaction.Machine.Leadership.Elected.{get_current_term_lem, known_term_answer}
use compaction.Machine.Campaigns.{become_follower_done, Course, kept, rests}
use compaction.State.Persistent.{PersistentState, get_current_term, update_term_and_vote}

-- The vote of `from` is counted; a node that leads then has the votes that it needed.
pub record IsCounted (from : NodeId) (n n' : Node) : Type 0 where
  pub node_id : n'.node_id ≡ n.node_id
  pub term : n'.persistent_state.current_term ≡ n.persistent_state.current_term
  pub votes : n'.votes_received ≡ add_to_set from n.votes_received
  pub needed : n'.votes_needed ≡ n.votes_needed
  pub role :
      (n'.current_state ≡ candidate)
      ⊎ ((n'.current_state ≡ leader) × (n'.votes_needed ≤ length n'.votes_received))

-- An answer that counts: a vote in the term of a candidate.
abbrev pub counts : RequestVoteResponse → Node → Bool
counts r n =
    same_state n.current_state candidate
    && ((r.term == n.persistent_state.current_term) && r.vote_granted)

abbrev pub count : NodeId → Node → Node
count from n = record n { votes_received = add_to_set from n.votes_received }

abbrev pub has_enough : NodeId → Node → Bool
has_enough from n = leb n.votes_needed (length (add_to_set from n.votes_received))

-- A leader that took its office: the role, the votes, the term and vote, and the membership stay.
pub record Serves (n n' : Node) : Type 0 where
  pub node_id : n'.node_id ≡ n.node_id
  pub persistent_state : n'.persistent_state ≡ n.persistent_state
  pub config_manager : n'.config_manager ≡ n.config_manager
  pub current_state : n'.current_state ≡ n.current_state
  pub votes_received : n'.votes_received ≡ n.votes_received
  pub votes_needed : n'.votes_needed ≡ n.votes_needed

-- A follower of the term with no votes.
pub record Resigns (term : ℕ) (n n' : Node) : Type 0 where
  pub node_id : n'.node_id ≡ n.node_id
  pub following : IsFollowing term none n n'
  pub votes : n'.votes_received ≡ []

pub data Tally (from : NodeId) (r : RequestVoteResponse) (n n' : Node) : Type 0 where
  outdated : n.persistent_state.current_term < r.term → Resigns r.term n n' → Tally from r n n'
  ignored :
      r.term ≤ n.persistent_state.current_term → counts r n ≡ false → n' ≡ n → Tally from r n n'
  waits : counts r n ≡ true → has_enough from n ≡ false → n' ≡ count from n → Tally from r n n'
  elected :
      counts r n ≡ true
      → has_enough from n ≡ true
      → is_voter n.config_manager.active_config n.node_id ≡ true
      → Serves (lead n.node_id (count from n)) n'
      → Tally from r n n'
  refused :
      counts r n ≡ true
      → has_enough from n ≡ true
      → is_voter n.config_manager.active_config n.node_id ≡ false
      → Resigns n.persistent_state.current_term (count from n) n'
      → Tally from r n n'

Serves-Carries : Carries Serves
Serves-Carries = record {
  same = λ n. record {
    node_id = refl;
    persistent_state = refl;
    config_manager = refl;
    current_state = refl;
    votes_received = refl;
    votes_needed = refl;
  };
  trans = λ a b c h k. record {
    node_id = k.node_id ∙ h.node_id;
    persistent_state = k.persistent_state ∙ h.persistent_state;
    config_manager = k.config_manager ∙ h.config_manager;
    current_state = k.current_state ∙ h.current_state;
    votes_received = k.votes_received ∙ h.votes_received;
    votes_needed = k.votes_needed ∙ h.votes_needed;
  };
  frame = λ n n' f. record {
    node_id = f.node_id;
    persistent_state = f.persistent_state;
    config_manager = f.config_manager;
    current_state = f.current_state;
    votes_received = f.votes_received;
    votes_needed = f.votes_needed;
  };
}

noop-Serves : (t : ℕ) → Within Serves Anyone (log (append_noop_entry t))
noop-Serves t = record {
  at = λ n h. (
    record {
      node_id = refl;
      persistent_state = refl;
      config_manager = refl;
      current_state = refl;
      votes_received = refl;
      votes_needed = refl;
    },
    tt,
  );
}

office-Serves : (self : NodeId) (n : Node) → Serves n (take_office self n).1
office-Serves self n = ((office-Within Serves Anyone Serves-Carries noop-Serves self).at n tt).0

resigned : (term : ℕ) (n : Node) → IsReady n → Resigns term n (become_follower term none n).1
resigned term n h = record {
  node_id = unfold become_follower get_current_term update_term_and_vote in ground arith;
  following = (become_follower_done term none n h).1;
  votes = unfold become_follower get_current_term update_term_and_vote in ground arith;
}

module _ (from : NodeId) (r : RequestVoteResponse) (n : Node) (h : IsReady n) where
  office_tally :
      (can : Bool)
      → is_voter n.config_manager.active_config n.node_id ≡ can
      → counts r n ≡ true
      → has_enough from n ≡ true
      → Tally from r n (become_leader (count from n)).1
  unfolding become_leader
  office_tally true e c enough =
      rw (voter_lem n.node_id n.config_manager h.configured, e)
        (elected c enough e (office-Serves n.node_id (lead n.node_id (count from n))))
  office_tally false e c enough =
      rw
        (
          voter_lem n.node_id n.config_manager h.configured,
          e,
          get_current_term_lem n.persistent_state h.persistent,
        )
        (refused c enough e (
          resigned n.persistent_state.current_term (count from n)
            (StaysReady-AllowsElection.counts n (add_to_set from n.votes_received) h)))

  count_tally : counts r n ≡ true → Tally from r n (count_vote from n).1
  unfolding count_vote
  count_tally c = elim (Bool-cases (has_enough from n)) [
    | inl enough ↦
        rw enough (office_tally (is_voter n.config_manager.active_config n.node_id) refl c enough)
    | inr few ↦ rw few (waits c few refl)
  ]

  granted_tally :
      (b : Bool)
      → r.vote_granted ≡ b
      → same_state n.current_state candidate ≡ true
      → (r.term == n.persistent_state.current_term) ≡ true
      → Tally from r n (if b then count_vote from n else (ok tt, n)).1
  granted_tally true g c t = count_tally (rw (c, t, g) refl)
  granted_tally false g c t = ignored (ground arith) (rw (c, t, g) refl) refl

  response_tally : Tally from r n (handle_request_vote_response from r n).1
  response_tally =
      rw (known_term_answer from r n h.persistent)
        (elim (Bool-cases (ltb n.persistent_state.current_term r.term)) [
          | inl higher ↦ rw higher (outdated (ground arith) (resigned r.term n h))
          | inr other ↦
              rw other
                (elim (Bool-cases (
                  not (same_state n.current_state candidate)
                  || not (r.term == n.persistent_state.current_term))) [
                    | inl stale ↦ rw stale (ignored (ground arith) (ground arith) refl)
                    | inr heard ↦
                        rw heard (granted_tally r.vote_granted refl (ground arith) (ground arith))
                  ])
        ])

-- On a node whose collaborators are initialized over open storages, an answer to a vote request
-- leaves them so. An answer from a higher term makes the node a follower of that term without
-- votes. Any other answer that does not grant a vote in the term of a candidate leaves the node as
-- it was. One that does adds exactly the sender to the votes: too few votes change nothing else,
-- with enough of them a voter leads and keeps votes, term, vote and membership, and a node that is
-- no voter becomes a follower of its own term without votes.
pub vote_answer_counted :
    (from : NodeId) (r : RequestVoteResponse) (n : Node)
    → IsReady n
    → IsReady (handle_request_vote_response from r n).1
      × Tally from r n (handle_request_vote_response from r n).1
vote_answer_counted from r n h = (
  ((handle_request_vote_response-Within StaysReady StaysReady-Allows StaysReady-AllowsElection from
          r).at
        n tt).0
      h,
  response_tally from r n h,
)

-- What the tally means for a candidacy: the vote is counted, or the candidacy is kept or over.
pub data Outcome (from : NodeId) (r : RequestVoteResponse) (n n' : Node) : Type 0 where
  uncounted : Course n n' → Outcome from r n n'
  counted :
      n.current_state ≡ candidate
      → r.term ≡ n.persistent_state.current_term
      → r.vote_granted ≡ true
      → IsCounted from n n'
      → Outcome from r n n'

module _ (from : NodeId) (r : RequestVoteResponse) (n n' : Node) where
  counted-Outcome : counts r n ≡ true → IsCounted from n n' → Outcome from r n n'
  counted-Outcome c k = counted (ground arith) (ground arith) (ground arith) k

  pub Tally-Outcome : Tally from r n n' → Outcome from r n n'
  Tally-Outcome (outdated t s) = uncounted (rests s.node_id s.following.role)
  Tally-Outcome (ignored t c e) = rw e (uncounted (kept refl refl (inl refl) refl refl refl refl))
  Tally-Outcome (waits c few e) = counted-Outcome c (
      rw e (record {
        node_id = refl;
        term = refl;
        votes = refl;
        needed = refl;
        role = inl (ground arith);
      }))
  Tally-Outcome (elected c enough v s) = counted-Outcome c (record {
    node_id = s.node_id;
    term = ap (λ (p : PersistentState). p.current_term) s.persistent_state;
    votes = s.votes_received;
    needed = s.votes_needed;
    role = inr (s.current_state, rw (s.votes_needed, s.votes_received) (ground arith));
  })
  Tally-Outcome (refused c enough v s) = uncounted (rests s.node_id s.following.role)
