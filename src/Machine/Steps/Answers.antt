-- ===== src/Machine/Steps/Answers.antt =====
-- The handler of answers to vote requests in StateMachine.ts, in the relations that also allow to
-- count a vote and to lead.
use compaction.Prelude.{leb, length, add_to_set, some, Bool, List, not, if◌then◌else◌}
use compaction.Prelude.Exec.{Exec, return, gets, modify, ◌>>=◌, ◌>>◌}
use compaction.Storage.Meta.{NodeId}
use compaction.State.Persistent.{get_current_term}
use compaction.State.Leader
use compaction.Log.Manager.{append_noop_entry}
use compaction.Log.Manager.Queries.{get_last_index}
use compaction.Config.Manager.{get_all_peers}
use compaction.Machine.{
  ℕ, RaftState, Node, leader, RequestVoteResponse, persistent, log, configuration, emit,
  start_heartbeat_timer,
}
use compaction.Machine.Roles.{become_leader, send_heartbeats, try_ignoring, self_is_voter}
use compaction.Machine.Elections.{count_vote, handle_request_vote_response}
use compaction.Machine.Steps.{Carries, Allows, Within, Anyone}
use compaction.Machine.Steps.Rules.{Within-bind, Within-gets, Within-if, Within-follow}
use compaction.Machine.Steps.Reads.{within_rules}
use compaction.Machine.Steps.Transitions.{
  refuse-Within, noop-Within, try-Within, send_heartbeats-Within,
}

-- What `becomeLeaderUnlocked` does once the role is taken.
abbrev pub take_office : NodeId → Exec Node Unit
take_office self = do
  term ← persistent get_current_term
  last ← log get_last_index
  peers ← configuration (get_all_peers self)
  modify (λ n. record n { leader_state = some (Leader.new peers last) })
  try_ignoring (log (append_noop_entry term))
  emit start_heartbeat_timer
  send_heartbeats

abbrev pub lead : NodeId → Node → Node
lead self n = record n { current_state = leader; current_leader = some self }

-- It stays in every relation that allows what stands outside the frame and the no-op entry.
pub office-Within :
    (R : Node → Node → Type 0) (P : RaftState → Type 0) (S : Carries R)
    → ((t : ℕ) → Within R P (log (append_noop_entry t)))
    → (self : NodeId) → Within R P (take_office self)
office-Within R P S noop self =
    search (within_rules, noop, try-Within, send_heartbeats-Within) depth 20

take_office-Within :
    (R : Node → Node → Type 0) (P : RaftState → Type 0) (S : Allows R) (self : NodeId)
    → Within R P (take_office self)
take_office-Within R P S self = office-Within R P S.carries (noop-Within R P S) self

-- The relation also allows to count a vote and to take the leader's role.
pub record AllowsElection (R : Node → Node → Type 0) : Type 0 where
  pub counts : (n : Node) (votes : List NodeId) → R n (record n { votes_received = votes })
  pub leads : (self : NodeId) (n : Node) → R n (lead self n)

module _ (R : Node → Node → Type 0) (S : Allows R) (E : AllowsElection R) where
  lead-Within : (self : NodeId) → Within R Anyone (modify (lead self))
  lead-Within self = record { at = λ n p. (E.leads self n, tt) }

  count-Within :
      (p : NodeId)
      → Within R Anyone (modify (λ n. record n { votes_received = add_to_set p n.votes_received }))
  count-Within p = record { at = λ n h. (E.counts n (add_to_set p n.votes_received), tt) }

  become_leader-Within : Within R Anyone become_leader
  unfolding become_leader
  become_leader-Within =
      Within-bind R Anyone S.carries self_is_voter _ (search within_rules) (λ can.
        Within-if R Anyone S.carries (not can) _ _ (refuse-Within R Anyone S tt) (
          Within-bind R Anyone S.carries (gets (λ n. n.node_id)) _
            (Within-gets R Anyone S.carries _)
            (λ self.
              Within-bind R Anyone S.carries (modify (lead self)) (λ u. take_office self)
                (lead-Within self) (λ u. take_office-Within R Anyone S self))))

  lead_if : (b : Bool) → Within R Anyone (if b then become_leader else return tt)
  lead_if b = search (within_rules, become_leader-Within)

  count_vote-Within : (p : NodeId) → Within R Anyone (count_vote p)
  unfolding count_vote
  count_vote-Within p =
      Within-bind R Anyone S.carries
        (modify (λ n. record n { votes_received = add_to_set p n.votes_received })) _
        (count-Within p)
        (λ u.
          Within-bind R Anyone S.carries (gets (λ n. leb n.votes_needed (length n.votes_received)))
            _ (Within-gets R Anyone S.carries _) lead_if)

  pub handle_request_vote_response-Within :
      (p : NodeId) (r : RequestVoteResponse) → Within R Anyone (handle_request_vote_response p r)
  unfolding handle_request_vote_response
  handle_request_vote_response-Within p r =
      search (within_rules, Within-follow, count_vote-Within) depth 20
