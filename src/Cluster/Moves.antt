-- ===== src/Cluster/Moves.antt =====
-- What an event of StateMachine.ts makes of the node that handles it, in a cluster.
use compaction.Prelude.{ℕ, true, List, ◌++◌, ◌≡◌, inl, refl, ◌∙◌}
use compaction.Storage.Meta.{NodeId}
use compaction.Config.{ClusterConfig}
use compaction.Machine.{Node, RequestVoteResponse, candidate}
use compaction.Machine.Ready.{IsReady}
use compaction.Machine.Runs.{
  Event, step, request_vote, append_entries, install_snapshot, vote_answer, pre_vote_answer,
  append_answer, election_timeout, heartbeat, starting, stopping,
}
use compaction.Machine.Voting.{Later, Advances, Advances-Allows, Advances-AllowsElection}
use compaction.Machine.Steps.Runs.{IsOther, step-Allows, step-AllowsElection}
use compaction.Machine.Campaigns.{Course, kept, rests, stood, Campaigns, Campaigns-Allows}
use compaction.Machine.Campaigns.Answers.{
  Outcome, uncounted, counted, vote_answer_counted, Tally-Outcome,
}
use compaction.Cluster.{Cluster, Ballot, Cast, own_vote, answered_vote, IsDeliverable}
use compaction.Cluster.Standing.{Standing, Standing-kept, Standing-counted}
use compaction.Cluster.Casting.{Cast-behind}
use compaction.Cluster.Sound.{IsSound}

module _ (config : ClusterConfig) (s : Cluster) (h : IsSound config s) (i : NodeId) where
  abbrev pub before : Node
  before = s.nodes i

  abbrev pub Moved : List Ballot → Node → Type 0
  Moved cast' n' = IsReady n' × (n'.node_id ≡ i) × Standing config cast' i n'

  node_id-Course : (n' : Node) → Course before n' → n'.node_id ≡ i
  node_id-Course n' (kept a t v c r w q) = a ∙ h.node_id i
  node_id-Course n' (rests a r) = a ∙ h.node_id i
  node_id-Course n' (stood a r w v m q) = a ∙ h.node_id i

  course : (e : Event) → IsOther e → IsReady (step before e) × Course before (step before e)
  course e o = step-Allows Campaigns Campaigns-Allows before e o (h.ready i)

  answered :
      (from : NodeId) (r : RequestVoteResponse)
      → IsReady (step before (vote_answer from r))
        × Outcome from r before (step before (vote_answer from r))
  unfolding step
  answered from r =
      let (ready, tally) = vote_answer_counted from r before (h.ready i) in
      (ready, Tally-Outcome from r before _ tally)

  module _ (e : Event) (active : (step before e).config_manager.active_config ≡ config) where
    abbrev pub cast_then : List Ballot
    cast_then = own_vote i (step before e) ++ (answered_vote i e before ++ s.cast)

    pub grows : (v : NodeId) (t : ℕ) (c : NodeId) → Cast v t c s.cast → Cast v t c cast_then
    grows v t c k =
        Cast-behind v t c (own_vote i (step before e)) (answered_vote i e before ++ s.cast)
          (Cast-behind v t c (answered_vote i e before) s.cast k)

    own-Cast :
        (step before e).current_state ≡ candidate
        → Cast i (step before e).persistent_state.current_term i cast_then
    own-Cast c = rw c (inl (refl, refl, refl))

    pub later : Later before.persistent_state (step before e).persistent_state
    later = step-AllowsElection Advances Advances-Allows Advances-AllowsElection before e

    Course-Moved :
        IsReady (step before e) × Course before (step before e) → Moved cast_then (step before e)
    Course-Moved (r, c) = (
      r,
      node_id-Course (step before e) c,
      Standing-kept config s.cast cast_then i before (step before e) grows (h.node_id i) active
          own-Cast c (h.standing i),
    )

    answer-Moved :
        (from : NodeId) (r : RequestVoteResponse)
        → (r.vote_granted ≡ true → Cast from r.term i s.cast)
        → IsReady (step before e) × Outcome from r before (step before e)
        → Moved cast_then (step before e)
    answer-Moved from r d (ready, uncounted c) = Course-Moved (ready, c)
    answer-Moved from r d (ready, counted c t g k) = (
      ready,
      k.node_id ∙ h.node_id i,
      Standing-counted config s.cast cast_then i before (step before e) grows from later c
          (rw (← t) (d g)) k (h.standing i),
    )

  pub moved :
      (e : Event)
      → IsDeliverable s i e
      → (active : (step before e).config_manager.active_config ≡ config)
      → Moved (own_vote i (step before e) ++ (answered_vote i e before ++ s.cast)) (step before e)
  moved (vote_answer from r) d a = answer-Moved (vote_answer from r) a from r d (answered from r)
  moved (request_vote now r) d a =
      Course-Moved (request_vote now r) a (course (request_vote now r) tt)
  moved (append_entries now r) d a =
      Course-Moved (append_entries now r) a (course (append_entries now r) tt)
  moved (install_snapshot f now p r) d a =
      Course-Moved (install_snapshot f now p r) a (course (install_snapshot f now p r) tt)
  moved (pre_vote_answer p r) d a =
      Course-Moved (pre_vote_answer p r) a (course (pre_vote_answer p r) tt)
  moved (append_answer p r) d a = Course-Moved (append_answer p r) a (course (append_answer p r) tt)
  moved election_timeout d a = Course-Moved election_timeout a (course election_timeout tt)
  moved heartbeat d a = Course-Moved heartbeat a (course heartbeat tt)
  moved starting d a = Course-Moved starting a (course starting tt)
  moved stopping d a = Course-Moved stopping a (course stopping tt)
