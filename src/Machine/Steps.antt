-- ===== src/Machine/Steps.antt =====
-- Relations between nodes of StateMachine.ts: what a relation has to allow for the handlers to
-- stay in it, and the rules by which an action is composed of allowed ones.
pub mod Rules
pub mod Reads
pub mod Transitions
pub mod Elections
pub mod Followers
pub mod Installers
pub mod Leaders
pub mod Votes
pub mod Answers
pub mod Runs
use compaction.Prelude.{
  ℕ, Option, none, some, Bool, true, false, ◌≡◌, subst, sym, ◌⊎◌, inl, inr, refl, if◌then◌else◌,
  List, arith,
}
use compaction.Prelude.Exec.{
  Error, Exec, Result, ok, err, return, throw, gets, modify, resume, ◌>>=◌, ◌>>◌,
}
use compaction.Storage.Meta.{NodeId}
use compaction.State.Persistent.{PersistentState, get_current_term}
use compaction.State.Volatile.{VolatileState}
use compaction.Config.{ClusterConfig}
use compaction.Config.Manager.{ConfigManager, voter, apply_config_entry, commit_config}
use compaction.Log.Manager.{LogManager}
use compaction.Log.Manager.Invariant.{IsManaged}
use compaction.Snapshot.{SnapshotManager}
use compaction.Machine.{
  RaftState, follower, Node, Effect, RequestVoteRequest, persistent, log, configuration, volatile,
  snapshots, emit,
}
use compaction.Machine.Roles.{become_follower, stand_for_election, stop}
use compaction.Machine.Elections.{decide_vote}

-- Where the two nodes agree; they may differ in what is observed, timed, replicated or volatile.
pub record Frame (n n' : Node) : Type 0 where
  pub node_id : n'.node_id ≡ n.node_id
  pub persistent_state : n'.persistent_state ≡ n.persistent_state
  pub config_manager : n'.config_manager ≡ n.config_manager
  pub log_manager : n'.log_manager ≡ n.log_manager
  pub current_state : n'.current_state ≡ n.current_state
  pub votes_received : n'.votes_received ≡ n.votes_received
  pub votes_needed : n'.votes_needed ≡ n.votes_needed

-- The manager stays usable: it is initialized over an open storage if it was.
pub record Remains (c c' : ConfigManager) : Type 0 where
  pub initialized : c.initialized ≡ true → c'.initialized ≡ true
  pub is_open : c.config_storage.is_open_flag ≡ true → c'.config_storage.is_open_flag ≡ true

-- A preorder on nodes that allows any change outside the frame.
pub record Carries (R : Node → Node → Type 0) : Type 0 where
  pub same : (n : Node) → R n n
  pub trans : (a b c : Node) → R a b → R b c → R a c
  pub frame : (n n' : Node) → Frame n n' → R n n'

-- It also allows changes of the log and of the configuration, the transition to follower, a
-- candidacy, and a vote.
pub record Allows (R : Node → Node → Type 0) : Type 0 where
  pub carries : Carries R
  pub logs :
      (n : Node) (l : LogManager)
      → (IsManaged n.log_manager → IsManaged l)
      → R n (record n { log_manager = l })
  pub commits :
      (n : Node) (c : ConfigManager)
      → c.active_config ≡ n.config_manager.active_config
      → Remains n.config_manager c
      → R n (record n { config_manager = c })
  pub reconfigures :
      (n : Node) (c : ConfigManager)
      → n.current_state ≡ follower
      → Remains n.config_manager c
      → R n (record n { config_manager = c })
  pub retires : (t : ℕ) (l : Option NodeId) (n : Node) → R n (become_follower t l n).1
  pub stands :
      (n : Node) → (voter n.node_id n.config_manager).0 ≡ ok true → R n (stand_for_election n).1
  pub decides :
      (r : RequestVoteRequest) (n : Node)
      → (n.persistent_state.current_term ≡ r.term) ⊎ (n.current_state ≡ follower)
      → R n (decide_vote r n).1
  pub stops : (n : Node) → R n (stop n).1

abbrev pub Anyone : RaftState → Type 0
Anyone s = Unit

abbrev pub IsFollower : RaftState → Type 0
IsFollower s = s ≡ follower

-- A completed transition leaves a follower.
abbrev pub Settled : Result (Unit {0}) × Node → Type 0
Settled (ok u, n) = n.current_state ≡ follower
Settled (err e, n) = Unit

pub record Settles (m : Exec Node Unit) : Type 0 where
  pub at : (n : Node) → Settled (m n)

-- Whether it returns or throws, the action stays in the relation and keeps the node's role in `P`.
pub record Within (R : Node → Node → Type 0) (P : RaftState → Type 0) {A : Type 0} (m : Exec Node A)
    : Type 0 where
  pub at : (n : Node) → P n.current_state → R n (m n).1 × P (m n).1.current_state
