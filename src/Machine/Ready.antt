-- ===== src/Machine/Ready.antt =====
-- A node of StateMachine.ts whose collaborators are initialized and whose storages are open, and
-- what its transition to follower does then.
pub mod Candidacy
pub mod Runs
use compaction.Prelude.{subst, sym, ℕ, max, Option, none, true, ◌≡◌, arith, ltb, if◌then◌else◌}
use compaction.Prelude.Exec.{ok}
use compaction.Storage.Meta.{NodeId}
use compaction.State.Persistent.{get_current_term, update_term_and_vote}
use compaction.Log.Manager.Invariant.{IsManaged}
use compaction.Machine.{follower, Node}
use compaction.Machine.Roles.{become_follower}

pub record IsReady (n : Node) : Type 0 where
  pub persistent : n.persistent_state.initialized ≡ true
  pub meta_open : n.persistent_state.meta.is_open_flag ≡ true
  pub configured : n.config_manager.initialized ≡ true
  pub config_open : n.config_manager.config_storage.is_open_flag ≡ true
  pub managed : IsManaged n.log_manager

-- A follower of the term, by a transition that leaves the log, the commit index and the membership.
pub record IsFollowing (term : ℕ) (leader_id : Option NodeId) (n n' : Node) : Type 0 where
  pub ready : IsReady n'
  pub role : n'.current_state ≡ follower
  pub leader_known : n'.current_leader ≡ leader_id
  pub term_adopted : n'.persistent_state.current_term ≡ max n.persistent_state.current_term term
  pub vote :
      n'.persistent_state.voted_for
      ≡ (if ltb n.persistent_state.current_term term then none else n.persistent_state.voted_for)
  pub log_kept : n'.log_manager ≡ n.log_manager
  pub volatile_kept : n'.volatile_state ≡ n.volatile_state
  pub config_kept : n'.config_manager ≡ n.config_manager

log-become_follower :
    (term : ℕ) (l : Option NodeId) (n : Node)
    → (become_follower term l n).1.log_manager ≡ n.log_manager
unfolding become_follower get_current_term
log-become_follower term l n = ground arith

become_follower-IsReady :
    (term : ℕ) (l : Option NodeId) (n : Node) → IsReady n → IsReady (become_follower term l n).1
unfolding become_follower get_current_term update_term_and_vote
become_follower-IsReady term l n h = record {
  persistent = ground arith;
  meta_open = ground arith;
  configured = ground arith;
  config_open = ground arith;
  managed = subst IsManaged (sym (log-become_follower term l n)) h.managed;
}

-- On a node whose collaborators are initialized over open storages, the transition to follower
-- succeeds and leaves it so: its term is the larger of the two, the vote is cleared exactly where
-- the term rose, the leader is the one given, and log, commit index and membership are untouched.
pub become_follower_done :
    (term : ℕ) (l : Option NodeId) (n : Node)
    → IsReady n
    → (become_follower term l n ≡ (ok tt, (become_follower term l n).1))
      × IsFollowing term l n (become_follower term l n).1
become_follower_done term l n h = (
  unfold become_follower get_current_term update_term_and_vote in ground arith,
  record {
    ready = become_follower-IsReady term l n h;
    role = unfold become_follower get_current_term update_term_and_vote in ground arith;
    leader_known = unfold become_follower get_current_term update_term_and_vote in ground arith;
    term_adopted = unfold become_follower get_current_term update_term_and_vote in ground arith;
    vote = unfold become_follower get_current_term update_term_and_vote in ground arith;
    log_kept = log-become_follower term l n;
    volatile_kept = unfold become_follower get_current_term update_term_and_vote in ground arith;
    config_kept = unfold become_follower get_current_term update_term_and_vote in ground arith;
  },
)
