-- ===== src/Cluster/Casting.antt =====
-- The votes that one event of StateMachine.ts casts.
use compaction.Prelude.{
  subst, ℕ, some, Bool, true, false, List, [], ◌∷◌, ◌++◌, ◌≡◌, ◌⊎◌, inl, inr, refl, ◌∙◌, arith,
  if◌then◌else◌, Bool-cases, ltb,
}
use compaction.Prelude.Exec.{Exec, Result, ok, err, return, resume, ◌>>=◌}
use compaction.Storage.Meta.{NodeId}
use compaction.Config.{ClusterConfig, is_voter}
use compaction.Machine.{
  RaftState, follower, leader, Node, RequestVoteRequest, RequestVoteResponse, candidate, same_state,
}
use compaction.Machine.Elections.{answer, deny, answer_vote, handle_request_vote, step_down_if}
use compaction.Machine.Ready.{IsReady}
use compaction.Machine.Ready.Candidacy.{term_of, voter_lem}
use compaction.Machine.Runs.{
  Event, step, request_vote, append_entries, install_snapshot, vote_answer, pre_vote_answer,
  append_answer, election_timeout, heartbeat, starting, stopping,
}
use compaction.Machine.Voting.Grants.{HasVoted, granted_vote_recorded}
use compaction.Cluster.{Ballot, Cast, is_grant, grants, granted_vote, answered_vote, own_vote}
use compaction.Cluster.Standing.{Standing, idle, campaigning, leading}

-- The action answers with no vote.
record Denies (m : Exec Node RequestVoteResponse) : Type 0 where
  at : (n : Node) → is_grant (m n).0 ≡ false

Denies-bind :
    {A : Type 0} (m : Exec Node A) (f : A → Exec Node RequestVoteResponse)
    → ((a : A) → Denies (f a))
    → Denies (m >>= f)
Denies-bind {A} m f hf = record { at = λ n. go (m n) }
  where
    go : (x : Result A × Node) → is_grant (resume f x).0 ≡ false
    go (ok a, n') = (hf a).at n'
    go (err e, n') = refl

Denies-answer : (t : ℕ) → Denies (return (answer t false))
Denies-answer t = record { at = λ n. refl }

Denies-if :
    (b : Bool) (m k : Exec Node RequestVoteResponse)
    → Denies m
    → Denies k
    → Denies (if b then m else k)
Denies-if true m k hm hk = hm
Denies-if false m k hm hk = hk

-- A node that does not vote.
answer_vote-Denies : (r : RequestVoteRequest) (t : ℕ) (c : Bool) → Denies (answer_vote r t false c)
unfolding answer_vote
answer_vote-Denies r t c = Denies-if (ltb r.term t) _ _ (Denies-answer t) (
    Denies-bind (step_down_if (ltb t r.term) r.term) (λ u. deny)
      (λ u. Denies-bind _ _ Denies-answer))

denied_by_learner :
    (now : ℕ) (r : RequestVoteRequest) (n : Node)
    → IsReady n
    → r.pre_vote ≡ false
    → is_voter n.config_manager.active_config n.node_id ≡ false
    → is_grant (handle_request_vote now r n).0 ≡ false
unfolding handle_request_vote answer_vote
denied_by_learner now r n h real e =
    rw
      (
        term_of n.persistent_state h.persistent,
        voter_lem n.node_id n.config_manager h.configured,
        voter_lem r.candidate_id n.config_manager h.configured,
        e,
        real,
      )
      ((answer_vote-Denies r n.persistent_state.current_term
          (is_voter n.config_manager.active_config r.candidate_id)).at
        n)

granted_by_voter :
    (now : ℕ) (r : RequestVoteRequest) (n : Node)
    → IsReady n
    → grants now r n ≡ true
    → is_voter n.config_manager.active_config n.node_id ≡ true
granted_by_voter now r n h g =
    elim (Bool-cases (is_voter n.config_manager.active_config n.node_id)) [
      | inl votes ↦ votes
      | inr learns ↦ ground (arith, denied_by_learner now r n h)
    ]

grant_recorded :
    (now : ℕ) (r : RequestVoteRequest) (n : Node)
    → grants now r n ≡ true
    → HasVoted r (handle_request_vote now r n).1.persistent_state
grant_recorded now r n g = go (handle_request_vote now r n).0 refl (ground arith) (ground arith)
  where
    go :
        (x : Result RequestVoteResponse)
        → (handle_request_vote now r n).0 ≡ x
        → r.pre_vote ≡ false
        → is_grant x ≡ true
        → HasVoted r (handle_request_vote now r n).1.persistent_state
    go (ok a) e real g = granted_vote_recorded now r n a real e g
    go (err x) e real g = cc

Cast-append :
    (v : NodeId) (t : ℕ) (c : NodeId) (xs bs : List Ballot)
    → Cast v t c (xs ++ bs)
    → Cast v t c xs ⊎ Cast v t c bs
Cast-append v t c [] bs h = inr h
Cast-append v t c (a ∷ xs) bs (inl e) = inl (inl e)
Cast-append v t c (a ∷ xs) bs (inr h) = elim (Cast-append v t c xs bs h) [
  | inl x ↦ inl (inr x)
  | inr x ↦ inr x
]

pub Cast-behind :
    (v : NodeId) (t : ℕ) (c : NodeId) (xs bs : List Ballot) → Cast v t c bs → Cast v t c (xs ++ bs)
Cast-behind v t c [] bs h = h
Cast-behind v t c (a ∷ xs) bs h = inr (Cast-behind v t c xs bs h)

-- The node has recorded the vote in its present term, and may vote.
pub record IsCaster (config : ClusterConfig) (i v : NodeId) (t : ℕ) (c : NodeId) (n : Node)
    : Type 0 where
  pub voter : i ≡ v
  pub term : n.persistent_state.current_term ≡ t
  pub vote : n.persistent_state.voted_for ≡ some c
  pub votes : is_voter config i ≡ true

abbrev self_ballot : NodeId → Node → Ballot
self_ballot i n = record { voter = i; term = n.persistent_state.current_term; candidate_id = i }

-- Only a candidate casts its own vote.
own_by_role :
    (i v : NodeId) (t : ℕ) (c : NodeId) (n : Node) (s : RaftState)
    → n.current_state ≡ s
    → Cast v t c (own_vote i n)
    → Cast v t c (if same_state s candidate then self_ballot i n ∷ [] else [])
own_by_role i v t c n s e h =
    subst (λ x. Cast v t c (if same_state x candidate then self_ballot i n ∷ [] else [])) e h

own_vote-IsCaster :
    (config : ClusterConfig) (cast : List Ballot) (i v : NodeId) (t : ℕ) (c : NodeId) (n : Node)
    → Standing config cast i n
    → Cast v t c (own_vote i n)
    → IsCaster config i v t c n
own_vote-IsCaster config cast i v t c n (idle f) h = absurd (own_by_role i v t c n follower f h)
own_vote-IsCaster config cast i v t c n (leading l b k) h =
    absurd (own_by_role i v t c n leader l h)
own_vote-IsCaster config cast i v t c n (campaigning r u m b) h =
    go (own_by_role i v t c n candidate r h)
  where
    go : Cast v t c (self_ballot i n ∷ []) → IsCaster config i v t c n
    go (inl (a, d, e)) = record { voter = a; term = d; vote = rw (← e) u; votes = m }
    go (inr x) = absurd x

granted-IsCaster :
    (config : ClusterConfig) (now : ℕ) (i v : NodeId) (t : ℕ) (c : NodeId) (r : RequestVoteRequest)
    (n : Node) (b : Bool)
    → IsReady n
    → n.node_id ≡ i
    → n.config_manager.active_config ≡ config
    → grants now r n ≡ b
    → Cast v t c (granted_vote i r b)
    → IsCaster config i v t c (handle_request_vote now r n).1
granted-IsCaster config now i v t c r n true h e a g (inl (x, y, z)) = record {
  voter = x;
  term = (grant_recorded now r n g).0 ∙ y;
  vote = rw (← z) ((grant_recorded now r n g).1);
  votes = rw (← e, ← a) (granted_by_voter now r n h g);
}
granted-IsCaster config now i v t c r n true h e a g (inr x) = absurd x
granted-IsCaster config now i v t c r n false h e a g x = absurd x

answered-IsCaster :
    (config : ClusterConfig) (i v : NodeId) (t : ℕ) (c : NodeId) (e : Event) (n : Node)
    → IsReady n
    → n.node_id ≡ i
    → n.config_manager.active_config ≡ config
    → Cast v t c (answered_vote i e n)
    → IsCaster config i v t c (step n e)
unfolding step
answered-IsCaster config i v t c (request_vote now r) n h x a k =
    granted-IsCaster config now i v t c r n (grants now r n) h x a refl k
answered-IsCaster config i v t c (append_entries now r) n h x a k = absurd k
answered-IsCaster config i v t c (install_snapshot f now p r) n h x a k = absurd k
answered-IsCaster config i v t c (vote_answer p r) n h x a k = absurd k
answered-IsCaster config i v t c (pre_vote_answer p r) n h x a k = absurd k
answered-IsCaster config i v t c (append_answer p r) n h x a k = absurd k
answered-IsCaster config i v t c election_timeout n h x a k = absurd k
answered-IsCaster config i v t c heartbeat n h x a k = absurd k
answered-IsCaster config i v t c starting n h x a k = absurd k
answered-IsCaster config i v t c stopping n h x a k = absurd k

-- A vote is cast by the event, as the node has recorded it, or was cast before.
pub voted_by_event :
    (config : ClusterConfig) (cast cast' : List Ballot) (i v : NodeId) (t : ℕ) (c : NodeId)
    (e : Event) (n : Node)
    → IsReady n
    → n.node_id ≡ i
    → n.config_manager.active_config ≡ config
    → Standing config cast' i (step n e)
    → Cast v t c (own_vote i (step n e) ++ (answered_vote i e n ++ cast))
    → IsCaster config i v t c (step n e) ⊎ Cast v t c cast
voted_by_event config cast cast' i v t c e n h x a st k =
    elim (Cast-append v t c (own_vote i (step n e)) (answered_vote i e n ++ cast) k) [
      | inl own ↦ inl (own_vote-IsCaster config cast' i v t c (step n e) st own)
      | inr rest ↦ elim (Cast-append v t c (answered_vote i e n) cast rest) [
        | inl new ↦ inl (answered-IsCaster config i v t c e n h x a new)
        | inr old ↦ inr old
      ]
    ]
