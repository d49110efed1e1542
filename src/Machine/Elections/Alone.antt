-- ===== src/Machine/Elections/Alone.antt =====
-- The only voter of a cluster, in StateMachine.ts.
use compaction.Prelude.{
  ap, String, ◌≤◌, ◌≡◌, refl, arith, true, false, [], ◌∷◌, ◌++◌, length, eq_iff,
}
use compaction.Prelude.Exec.{ok}
use compaction.Config.Manager.{voter, quorum_size, get_voters}
use compaction.State.Persistent.{get_current_term, update_term_and_vote}
use compaction.Log.Manager.Queries.{get_last_index, get_last_term}
use compaction.Machine.{
  leader, same_state, Effect, NodeId, none, Node, follower, candidate, start_election_timer,
}
use compaction.Machine.Ready.{IsReady}
use compaction.Machine.Ready.Candidacy.{term_of, voted_for_self, vote_recorded}
use compaction.Machine.Roles.{others, emit_each, become_candidate, request_votes}
use compaction.Machine.Elections.{handle_election_timeout, start_pre_vote}

-- The node is the only voter of its active configuration.
pub record IsAlone (n : Node) : Type 0 where
  pub address : String
  pub only :
      n.config_manager.active_config.voters ≡ record { id = n.node_id; address = address } ∷ []

alone_voter :
    (n : Node)
    → IsReady n
    → IsAlone n
    → voter n.node_id n.config_manager ≡ (ok true, n.config_manager)
unfolding voter
alone_voter n h a = rw (h.configured, a.only) (ground (arith, eq_iff n.node_id n.node_id))

alone_quorum :
    (n : Node) → IsReady n → IsAlone n → quorum_size n.config_manager ≡ (ok 1, n.config_manager)
unfolding quorum_size
alone_quorum n h a = rw (h.configured, a.only) refl

alone_voters :
    (n : Node)
    → IsReady n
    → IsAlone n
    → get_voters n.config_manager ≡ (ok (n.node_id ∷ []), n.config_manager)
unfolding get_voters
alone_voters n h a = rw (h.configured, a.only) refl

term_after :
    (n : Node)
    → IsReady n
    → get_current_term (voted_for_self n) ≡ (ok (voted_for_self n).current_term, voted_for_self n)
unfolding get_current_term update_term_and_vote
term_after n h = ground (arith, h.persistent, h.meta_open)

last_index_of :
    (n : Node)
    → IsReady n
    → get_last_index n.log_manager ≡ (ok n.log_manager.last_index, n.log_manager)
unfolding get_last_index
last_index_of n h = ground (arith, h.managed.ready)

last_term_of :
    (n : Node)
    → IsReady n
    → get_last_term n.log_manager ≡ (ok n.log_manager.last_term, n.log_manager)
unfolding get_last_term
last_term_of n h = ground (arith, h.managed.ready)

abbrev stuck : Node → Node
stuck n = record n {
  current_state = candidate;
  current_leader = none;
  leader_state = none;
  persistent_state = voted_for_self n;
  votes_received = n.node_id ∷ [];
  votes_needed = 1;
  effects = n.effects ++ start_election_timer ∷ [];
}

others_alone : (i : String) → others i (i ∷ []) ≡ []
others_alone i = ground (arith, eq_iff i i)

asks_nobody :
    (make : NodeId → Effect) (i : NodeId) (n : Node)
    → emit_each make (others i (i ∷ [])) n ≡ (ok tt, n)
asks_nobody make i n = ap (λ ps. emit_each make ps n) (others_alone i)

requests_nothing :
    (n : Node)
    → get_current_term n.persistent_state ≡ (ok n.persistent_state.current_term, n.persistent_state)
    → get_last_index n.log_manager ≡ (ok n.log_manager.last_index, n.log_manager)
    → get_last_term n.log_manager ≡ (ok n.log_manager.last_term, n.log_manager)
    → get_voters n.config_manager ≡ (ok (n.node_id ∷ []), n.config_manager)
    → request_votes n ≡ (ok tt, n)
unfolding request_votes
requests_nothing n t li lt v = rw (t, li, lt, v) (asks_nobody _ n.node_id n)

alone_campaigns : (n : Node) → IsReady n → IsAlone n → become_candidate n ≡ (ok tt, stuck n)
unfolding become_candidate
alone_campaigns n h a =
    rw
      (
        alone_voter n h a,
        term_of n.persistent_state h.persistent,
        vote_recorded n h,
        alone_voter n h a,
        alone_quorum n h a,
      )
      (requests_nothing (stuck n) (term_after n h) (last_index_of n h) (last_term_of n h)
        (alone_voters n h a))

-- The only voter of a cluster, a follower that is not in a pre-vote round and whose collaborators
-- are initialized over open storages, becomes a candidate when its election timeout fires: it has
-- the votes that it needs, starts its timer, asks nobody, and does not become leader.
pub alone_stuck :
    (n : Node)
    → IsReady n
    → IsAlone n
    → n.current_state ≡ follower
    → n.pre_vote_in_progress ≡ false
    → (n' : Node) × (handle_election_timeout n ≡ (ok tt, n'))
      × (n'.current_state ≡ candidate)
      × (n'.votes_needed ≤ length n'.votes_received)
      × (n'.effects ≡ n.effects ++ start_election_timer ∷ [])
unfolding handle_election_timeout start_pre_vote
alone_stuck n h a f p =
    let m : Node = record n {
      pre_vote_in_progress = false;
      pre_vote_term = n.persistent_state.current_term;
      pre_votes_received = n.node_id ∷ [];
    } in
    let ready : IsReady m = record {
      persistent = h.persistent;
      meta_open = h.meta_open;
      configured = h.configured;
      config_open = h.config_open;
      managed = h.managed;
    } in
    let no_leader : same_state n.current_state leader ≡ false = ground arith in
    let no_candidate : same_state n.current_state candidate ≡ false = ground arith in
    let alone : IsAlone m = record { address = a.address; only = a.only } in
    (
      stuck m,
      rw
          (
            alone_voter n h a,
            no_leader,
            p,
            no_candidate,
            term_of n.persistent_state h.persistent,
            alone_voter n h a,
            alone_quorum n h a,
          )
          (alone_campaigns m ready alone),
      refl,
      ground arith,
      refl,
    )
