-- ===== src/Machine/Roles.antt =====
-- packages/raft-core/src/core/StateMachine.ts: the transitions between follower, candidate and leader.
-- Log lines and observer events are left out.
use compaction.Prelude.{
  ℕ, ◌+◌, Option, none, some, Bool, true, false, not, List, [], ◌∷◌, ltb, if◌then◌else◌, str_eq,
  filter, includes,
}
use compaction.Prelude.Exec.{Exec, Result, ok, raft, return, throw, gets, modify, ◌>>=◌, ◌>>◌}
use compaction.Storage.Meta.{NodeId}
use compaction.Config.Manager.{voter, quorum_size, get_voters, get_all_peers}
use compaction.State.Persistent.{get_current_term, update_term_and_vote}
use compaction.State.Leader
use compaction.State.Leader.{LeaderState}
use compaction.Log.Manager.{append_noop_entry}
use compaction.Log.Manager.Queries.{get_last_index, get_last_term}
use compaction.Machine.{
  follower, candidate, leader, Node, Effect, start_election_timer, stop_heartbeat_timer,
  start_heartbeat_timer, stop_all_timers, send_request_vote, send_append_entries, peer_discovered,
  persistent, log, configuration, emit, is_leader,
}

unfoldable pub stop : Exec Node Unit
stop = do
  emit stop_all_timers
  modify (λ n. record n {
    current_state = follower;
    current_leader = none;
    votes_received = [];
    leader_state = none;
  })

abbrev pub adopt_term : ℕ → Exec Node Unit
adopt_term term = do
  current ← persistent get_current_term
  if ltb current term then persistent (update_term_and_vote term none) else return tt

abbrev forget_role : Option NodeId → Node → Node
forget_role leader_id n = record n {
  current_state = follower;
  votes_received = [];
  pre_vote_in_progress = false;
  pre_votes_received = [];
  install_snapshot_session = none;
  current_leader = leader_id;
}

abbrev pub drop_leadership : Bool → Exec Node Unit
drop_leadership true = do modify (λ n. record n { leader_state = none }); emit stop_heartbeat_timer
drop_leadership false = return tt

-- `becomeFollowerUnlocked`
unfoldable pub become_follower : ℕ → Option NodeId → Exec Node Unit
become_follower term leader_id = do
  adopt_term term
  was_leader ← gets is_leader
  modify (forget_role leader_id)
  drop_leadership was_leader
  emit start_election_timer

unfoldable pub start : Exec Node Unit
unfolding become_follower
start = do term ← persistent get_current_term; become_follower term none

-- The loops over peers that send one message to each.
abbrev pub emit_each : (NodeId → Effect) → List NodeId → Exec Node Unit
emit_each make [] = return tt
emit_each make (p ∷ ps) = do emit (make p); emit_each make ps

abbrev pub others : NodeId → List NodeId → List NodeId
others self ids = filter (λ i. not (str_eq i self)) ids

unfoldable pub request_votes : Exec Node Unit
request_votes = do
  term ← persistent get_current_term
  last_index ← log get_last_index
  last_term ← log get_last_term
  self ← gets (λ n. n.node_id)
  voters ← configuration get_voters
  emit_each
      (λ p. send_request_vote p (record {
        term = term;
        candidate_id = self;
        last_log_index = last_index;
        last_log_term = last_term;
        pre_vote = false;
      }))
      (others self voters)

abbrev pub self_is_voter : Exec Node Bool
self_is_voter = do self ← gets (λ n. n.node_id); configuration (voter self)

-- `becomeFollowerUnlocked(this.persistentState.getCurrentTerm(), null)`
abbrev pub refuse_transition : Exec Node Unit
refuse_transition = do term ← persistent get_current_term; become_follower term none

-- `updateTermAndVote(getCurrentTerm() + 1, nodeId)`
abbrev pub vote_for_self : Exec Node Unit
vote_for_self = do
  term ← persistent get_current_term
  self ← gets (λ n. n.node_id)
  persistent (update_term_and_vote (term + 1) (some self))

-- `becomeCandidateUnlocked` of a voter, as far as its timer; the source checks again that it votes.
unfoldable pub stand_for_election : Exec Node Unit
stand_for_election = do
  modify (λ n. record n { current_state = candidate; current_leader = none; leader_state = none })
  vote_for_self
  modify (λ n. record n { votes_received = [] })
  still ← self_is_voter
  if still then modify (λ n. record n { votes_received = n.node_id ∷ [] }) else return tt
  needed ← configuration quorum_size
  modify (λ n. record n { votes_needed = needed })
  emit start_election_timer

-- `becomeCandidateUnlocked`
unfoldable pub become_candidate : Exec Node Unit
unfolding stand_for_election
become_candidate = do
  can ← self_is_voter
  if not can then refuse_transition else do stand_for_election; request_votes

-- One peer of the loop of `sendHeartbeatsUnlocked` that adds the new ones.
abbrev pub track : NodeId → LeaderState → Exec Node Unit
track p s = if includes s.peers p then return tt else do
  last ← log get_last_index
  modify (λ n. record n { leader_state = some (Leader.add_peer p last s) })
  emit (peer_discovered p last)

abbrev pub track_in : NodeId → Option LeaderState → Exec Node Unit
track_in p none = return tt
track_in p (some s) = track p s

abbrev pub track_all : List NodeId → Exec Node Unit
track_all [] = return tt
track_all (p ∷ ps) = do state ← gets (λ n. n.leader_state); track_in p state; track_all ps

abbrev pub require_leader_state : Option LeaderState → Exec Node Unit
require_leader_state none = throw raft
require_leader_state (some s) = return tt

-- `sendHeartbeatsUnlocked`
unfoldable pub send_heartbeats : Exec Node Unit
send_heartbeats = do
  leading ← gets is_leader
  if not leading then return tt else do
    state ← gets (λ n. n.leader_state)
    require_leader_state state
    self ← gets (λ n. n.node_id)
    peers ← configuration (get_all_peers self)
    track_all peers
    emit_each send_append_entries peers

-- `try { ... } catch { log }`
abbrev pub ignoring : {A : Type 0} → Result A × Node → Result (Unit {0}) × Node
ignoring (r, n) = (ok tt, n)

abbrev pub try_ignoring : {A : Type 0} → Exec Node A → Exec Node Unit
try_ignoring f n = ignoring (f n)

-- `becomeLeaderUnlocked`
unfoldable pub become_leader : Exec Node Unit
become_leader = do
  can ← self_is_voter
  if not can then refuse_transition else do
    self ← gets (λ n. n.node_id)
    modify (λ n. record n { current_state = leader; current_leader = some self })
    term ← persistent get_current_term
    last ← log get_last_index
    peers ← configuration (get_all_peers self)
    modify (λ n. record n { leader_state = some (Leader.new peers last) })
    try_ignoring (log (append_noop_entry term))
    emit start_heartbeat_timer
    send_heartbeats
