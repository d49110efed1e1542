-- ===== src/Machine/Installing.antt =====
-- packages/raft-core/src/core/StateMachine.ts: a follower receives a snapshot in chunks.
use compaction.Prelude.{
  concat, ℕ, ◌+◌, Option, none, some, Bool, true, false, not, ◌&&◌, ◌||◌, [], ◌∷◌, ◌++◌, ltb, leb,
  ◌==◌, if◌then◌else◌, length, str_eq,
}
use compaction.Prelude.Exec.{Exec, Result, return, gets, modify, ◌>>=◌, ◌>>◌}
use compaction.Storage.Meta.{NodeId}
use compaction.Storage.Snapshot.{Buffer}
use compaction.Config.{ClusterConfig}
use compaction.Config.Manager.{apply_config_entry, commit_config}
use compaction.State.Persistent.{get_current_term}
use compaction.State.Volatile.{set_commit_index, set_last_applied}
use compaction.Log.Manager.{discard_entries_up_to, reset_to_snapshot}
use compaction.Log.Manager.Queries.{get_last_index}
use compaction.Snapshot.{save_snapshot}
use compaction.Machine.{
  follower, InstallSnapshotRequest, InstallSnapshotResponse, SnapshotInstallSession, Node,
  start_election_timer, persistent, volatile, log, configuration, snapshots, emit, same_state,
}
use compaction.Machine.Roles.{become_follower}

abbrev pub matches_session : NodeId → InstallSnapshotRequest → Option SnapshotInstallSession → Bool
matches_session from r none = false
matches_session from r (some s) =
    str_eq s.leader_id from
    && ((s.term == r.term)
        && ((s.last_included_index == r.last_included_index)
            && (s.last_included_term == r.last_included_term)))

abbrev pub fresh_session : NodeId → InstallSnapshotRequest → SnapshotInstallSession
fresh_session from r = record {
  leader_id = from;
  term = r.term;
  last_included_index = r.last_included_index;
  last_included_term = r.last_included_term;
  config = r.config;
  chunks = [];
  received_bytes = 0;
}

-- The session that a chunk belongs to, if there is one.
abbrev pub session_for :
    NodeId → InstallSnapshotRequest → Option SnapshotInstallSession → Option SnapshotInstallSession
session_for from r o =
    if r.offset == 0
    then some (fresh_session from r)
    else if matches_session from r o
    then o
    else none

abbrev pub push_chunk : Buffer → SnapshotInstallSession → SnapshotInstallSession
push_chunk [] s = s
push_chunk (b ∷ bs) s = record s {
  chunks = s.chunks ++ (b ∷ bs) ∷ [];
  received_bytes = s.received_bytes + length (b ∷ bs);
}

abbrev pub respond : Bool → Exec Node InstallSnapshotResponse
respond success = do
  t ← persistent get_current_term
  return (record { term = t; success = success })

abbrev pub call : Result (Unit {0}) → Exec Node Unit
call r n = (r, n)

-- The section under `applyLock`. What the application's `installSnapshot` does with the bytes, a
-- success or an exception, is the parameter `install`.
unfoldable pub install_log : (Buffer → Result (Unit {0})) → ℕ → ℕ → Buffer → Exec Node Unit
install_log install index term bytes = do
  last ← log get_last_index
  if leb index last
      then log (discard_entries_up_to index term)
      else log (reset_to_snapshot index term)
  call (install bytes)
  volatile (set_commit_index index)
  volatile (set_last_applied index)

abbrev pub adopt_config : ClusterConfig → Exec Node Unit
adopt_config c =
    if length c.voters == 0
    then return tt
    else do configuration (apply_config_entry c); configuration (commit_config c)

-- What follows the last chunk.
unfoldable pub finish_install :
    (Buffer → Result (Unit {0}))
    → InstallSnapshotRequest
    → Buffer
    → Exec Node InstallSnapshotResponse
finish_install install r bytes = do
  modify (λ n. record n { install_snapshot_session = none })
  snapshots (
      save_snapshot (record {
        last_included_index = r.last_included_index;
        last_included_term = r.last_included_term;
        bytes = bytes;
        config = r.config;
      }))
  install_log install r.last_included_index r.last_included_term bytes
  adopt_config r.config
  respond true

abbrev pub take_chunk :
    (Buffer → Result (Unit {0}))
    → InstallSnapshotRequest
    → SnapshotInstallSession
    → Exec Node InstallSnapshotResponse
take_chunk install r s = if not (r.offset == s.received_bytes) then respond false else do
  modify (λ n. record n { install_snapshot_session = some (push_chunk r.bytes s) })
  if not r.done
      then respond true
      else finish_install install r (concat (push_chunk r.bytes s).chunks)

-- A session that is refused stays as it was.
abbrev pub take_in :
    (Buffer → Result (Unit {0}))
    → InstallSnapshotRequest
    → Option SnapshotInstallSession
    → Exec Node InstallSnapshotResponse
take_in install r none = respond false
take_in install r (some s) = do
  modify (λ n. record n { install_snapshot_session = some s })
  take_chunk install r s

abbrev pub acknowledge_leader : NodeId → InstallSnapshotRequest → ℕ → Exec Node Unit
acknowledge_leader from r current = do
  following ← gets (λ n. same_state n.current_state follower)
  if ltb current r.term || not following
      then become_follower r.term (some r.leader_id)
      else (do modify (λ n. record n { current_leader = some from }); emit start_election_timer)

-- `handleInstallSnapshot`; `now` is `performance.now()`.
unfoldable pub handle_install_snapshot :
    (Buffer → Result (Unit {0}))
    → ℕ
    → NodeId
    → InstallSnapshotRequest
    → Exec Node InstallSnapshotResponse
handle_install_snapshot install now from r = do
  current ← persistent get_current_term
  if ltb r.term current then return (record { term = current; success = false }) else do
    acknowledge_leader from r current
    modify (λ n. record n { last_leader_contact_at = now })
    session ← gets (λ n. session_for from r n.install_snapshot_session)
    take_in install r session
