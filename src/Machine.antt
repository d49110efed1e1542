-- ===== src/Machine.antt =====
-- packages/raft-core/src/core/StateMachine.ts: the node of the protocol, its messages
-- (rpc/RPCTypes.ts), and the calls that it makes of its collaborators.
pub mod Roles
pub mod Elections
pub mod Ready
pub mod Runs
pub mod Campaigns
pub mod Voting
pub mod Replication
pub mod Leading
pub mod Installing
pub mod Sending
pub mod Messages
pub mod Leadership
pub mod Steps
use compaction.Prelude.{ℕ, Option, none, some, Bool, true, false, List, [], ◌∷◌, ◌++◌}
use compaction.Prelude.Exec.{Exec, Result, ok, err}
use compaction.Storage.Meta.{NodeId}
use compaction.Storage.Snapshot.{Buffer}
use compaction.Config.{ClusterConfig}
use compaction.Config.Manager.{ConfigManager}
use compaction.State.Persistent.{PersistentState}
use compaction.State.Volatile.{VolatileState}
use compaction.State.Leader.{LeaderState}
use compaction.Log.{LogEntry}
use compaction.Log.Manager.{LogManager}
use compaction.Snapshot.{SnapshotManager}

pub data RaftState : Type 0 where
  follower candidate leader : RaftState

pub record RequestVoteRequest : Type 0 where
  pub term : ℕ
  pub candidate_id : NodeId
  pub last_log_index : ℕ
  pub last_log_term : ℕ
  pub pre_vote : Bool

pub record RequestVoteResponse : Type 0 where
  pub term : ℕ
  pub vote_granted : Bool

pub record AppendEntriesRequest : Type 0 where
  pub term : ℕ
  pub leader_id : NodeId
  pub prev_log_index : ℕ
  pub prev_log_term : ℕ
  pub entries : List LogEntry
  pub leader_commit : ℕ

pub record AppendEntriesResponse : Type 0 where
  pub term : ℕ
  pub success : Bool
  pub match_index : Option ℕ
  pub conflict_index : Option ℕ
  pub conflict_term : Option ℕ

pub record InstallSnapshotRequest : Type 0 where
  pub term : ℕ
  pub leader_id : NodeId
  pub last_included_index : ℕ
  pub last_included_term : ℕ
  pub bytes : Buffer
  pub config : ClusterConfig
  pub offset : ℕ
  pub done : Bool

pub record InstallSnapshotResponse : Type 0 where
  pub term : ℕ
  pub success : Bool

pub record SnapshotInstallSession : Type 0 where
  pub leader_id : NodeId
  pub term : ℕ
  pub last_included_index : ℕ
  pub last_included_term : ℕ
  pub config : ClusterConfig
  pub chunks : List Buffer
  pub received_bytes : ℕ

-- What the node asks of its timers, its transport and its owner, in order. A message that the code
-- sends from a task of its own is an effect here; its answer comes back as a later call.
pub data Effect : Type 0 where
  start_election_timer reset_election_timer start_heartbeat_timer stop_heartbeat_timer : Effect
  stop_all_timers : Effect
  send_request_vote send_pre_vote : NodeId → RequestVoteRequest → Effect
  send_append_entries : NodeId → Effect
  peer_discovered : NodeId → ℕ → Effect
  commit_index_advanced : ℕ → Effect

pub record Node : Type 0 where
  pub node_id : NodeId
  pub election_timeout_min_ms : ℕ
  pub config_manager : ConfigManager
  pub persistent_state : PersistentState
  pub volatile_state : VolatileState
  pub log_manager : LogManager
  pub snapshot_manager : SnapshotManager
  pub current_state : RaftState
  pub current_leader : Option NodeId
  pub votes_received : List NodeId
  pub votes_needed : ℕ
  pub leader_state : Option LeaderState
  pub last_leader_contact_at : ℕ
  pub pre_vote_in_progress : Bool
  pub pre_vote_term : ℕ
  pub pre_votes_received : List NodeId
  pub install_snapshot_session : Option SnapshotInstallSession
  pub effects : List Effect

-- A call of a collaborator: it may throw, and its state changes either way.
abbrev pub keep_persistent : {A : Type 0} → Node → Result A × PersistentState → Result A × Node
keep_persistent n (r, p) = (r, record n { persistent_state = p })

abbrev pub persistent : {A : Type 0} → Exec PersistentState A → Exec Node A
persistent f n = keep_persistent n (f n.persistent_state)

abbrev pub keep_volatile : {A : Type 0} → Node → Result A × VolatileState → Result A × Node
keep_volatile n (r, v) = (r, record n { volatile_state = v })

abbrev pub volatile : {A : Type 0} → Exec VolatileState A → Exec Node A
volatile f n = keep_volatile n (f n.volatile_state)

abbrev pub keep_log : {A : Type 0} → Node → Result A × LogManager → Result A × Node
keep_log n (r, l) = (r, record n { log_manager = l })

abbrev pub log : {A : Type 0} → Exec LogManager A → Exec Node A
log f n = keep_log n (f n.log_manager)

abbrev pub keep_config : {A : Type 0} → Node → Result A × ConfigManager → Result A × Node
keep_config n (r, c) = (r, record n { config_manager = c })

abbrev pub configuration : {A : Type 0} → Exec ConfigManager A → Exec Node A
configuration f n = keep_config n (f n.config_manager)

abbrev pub keep_snapshot : {A : Type 0} → Node → Result A × SnapshotManager → Result A × Node
keep_snapshot n (r, s) = (r, record n { snapshot_manager = s })

abbrev pub snapshots : {A : Type 0} → Exec SnapshotManager A → Exec Node A
snapshots f n = keep_snapshot n (f n.snapshot_manager)

abbrev pub emit : Effect → Exec Node Unit
emit e n = (ok tt, record n { effects = n.effects ++ e ∷ [] })

abbrev pub same_state : RaftState → RaftState → Bool
same_state follower follower = true
same_state candidate candidate = true
same_state leader leader = true
same_state _ _ = false

abbrev pub is_leader : Node → Bool
is_leader n = same_state n.current_state leader
