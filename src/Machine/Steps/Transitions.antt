-- ===== src/Machine/Steps/Transitions.antt =====
-- The transitions of StateMachine.ts, in the relations that allow their parts.
use compaction.Prelude.{ℕ, Option, none, some, Bool, true, false, List, [], ◌∷◌, refl}
use compaction.Prelude.Exec.{Exec, gets, ◌>>◌}
use compaction.Storage.Meta.{NodeId}
use compaction.State.Leader.{LeaderState}
use compaction.Log.Manager.{append_noop_entry}
use compaction.Log.Manager.Runs.{noop-IsManaged}
use compaction.Machine.{RaftState, follower, Node, Effect, emit, log}
use compaction.Machine.Roles.{
  emit_each, track_in, track_all, require_leader_state, send_heartbeats, start, stop,
  refuse_transition, try_ignoring,
}
use compaction.Prelude.{◌≡◌, sym, not, if◌then◌else◌}
use compaction.Prelude.Exec.{Result, ok, err, resume}
use compaction.Config.Manager.{ConfigManager, voter}
use compaction.Machine.{keep_config}
use compaction.Machine.Roles.{stand_for_election, request_votes, become_candidate}
use compaction.Machine.Steps.Reads.{voter_same}
use compaction.Machine.Steps.{Carries, Allows, Within, Anyone}
use compaction.Machine.Steps.Rules.{
  Within-bind, Within-gets, Within-emit, Within-log, Within-follow,
}
use compaction.Machine.Steps.Reads.{within_rules}

module _ (R : Node → Node → Type 0) (P : RaftState → Type 0) (S : Carries R) where
  pub emit_each-Within :
      (make : NodeId → Effect) (ps : List NodeId) → Within R P (emit_each make ps)
  emit_each-Within make [] = search within_rules
  emit_each-Within make (p ∷ ps) =
      Within-bind R P S (emit (make p)) (λ _. emit_each make ps) (Within-emit R P S (make p))
        (λ _. emit_each-Within make ps)

  track-Within : (p : NodeId) (s : Option LeaderState) → Within R P (track_in p s)
  track-Within p none = search within_rules
  track-Within p (some s) = search within_rules depth 9

  track_all-Within : (ps : List NodeId) → Within R P (track_all ps)
  track_all-Within [] = search within_rules
  track_all-Within (p ∷ ps) =
      Within-bind R P S (gets (λ (n : Node). n.leader_state)) (λ s. track_in p s >> track_all ps)
        (Within-gets R P S _)
        (λ s.
          Within-bind R P S (track_in p s) (λ _. track_all ps) (track-Within p s)
            (λ _. track_all-Within ps))

  require-Within : (s : Option LeaderState) → Within R P (require_leader_state s)
  require-Within none = search within_rules
  require-Within (some s) = search within_rules

  pub send_heartbeats-Within : Within R P send_heartbeats
  unfolding send_heartbeats
  send_heartbeats-Within =
      search (within_rules, emit_each-Within, track_all-Within, require-Within) depth 14

  pub request_votes-Within : Within R P request_votes
  unfolding request_votes
  request_votes-Within = search (within_rules, emit_each-Within) depth 12

  pub try-Within : {A : Type 0} (m : Exec Node A) → Within R P m → Within R P (try_ignoring m)
  try-Within m h = record { at = λ n p. h.at n p }

module _ (R : Node → Node → Type 0) (P : RaftState → Type 0) (S : Allows R) where
  pub refuse-Within : P follower → Within R P refuse_transition
  refuse-Within f = search (within_rules, Within-follow)

  pub noop-Within : (t : ℕ) → Within R P (log (append_noop_entry t))
  noop-Within t = Within-log R P S (append_noop_entry t) (noop-IsManaged t)

module _ (R : Node → Node → Type 0) (S : Allows R) where
  campaign :
      (can : Bool) (n : Node)
      → (voter n.node_id n.config_manager).0 ≡ ok can
      → R n ((if not can then refuse_transition else do stand_for_election; request_votes) n).1
  campaign false n e = ((refuse-Within R Anyone S tt).at n tt).0
  campaign true n e = go (stand_for_election n) (S.stands n e)
    where
      go : (x : Result (Unit {0}) × Node) → R n x.1 → R n (resume (λ u. request_votes) x).1
      go (ok u, n') r =
          S.carries.trans n n' (request_votes n').1 r
            (((request_votes-Within R Anyone S.carries).at n' tt).0)
      go (err e, n') r = r

  candidacy :
      (n : Node) (x : Result Bool × ConfigManager)
      → x.1 ≡ n.config_manager
      → x.0 ≡ (voter n.node_id n.config_manager).0
      → R n
          (resume
            (λ can. if not can then refuse_transition else do stand_for_election; request_votes)
            (keep_config n x)).1
  candidacy n (ok can, c) same e = rw same (campaign can n (sym e))
  candidacy n (err e, c) same q = rw same (S.carries.same n)

  pub Within-campaign : Within R Anyone become_candidate
  unfolding become_candidate
  Within-campaign = record {
    at = λ n h. (
      candidacy n (voter n.node_id n.config_manager) (voter_same n.node_id n.config_manager) refl,
      tt,
    );
  }

  pub start-Within : Within R Anyone start
  unfolding start
  start-Within = search (within_rules, Within-follow)

  pub stop-Within : Within R Anyone stop
  stop-Within = record { at = λ n p. (S.stops n, tt) }
