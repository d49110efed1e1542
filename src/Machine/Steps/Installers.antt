-- ===== src/Machine/Steps/Installers.antt =====
-- The handler of InstallSnapshot in StateMachine.ts, in the relations that allow its parts.
use compaction.Prelude.{ℕ, Option, none, some}
use compaction.Prelude.Exec.{Result}
use compaction.Storage.Meta.{NodeId}
use compaction.Storage.Snapshot.{Buffer}
use compaction.Machine.{InstallSnapshotRequest, SnapshotInstallSession}
use compaction.Prelude.Exec.{Exec}
use compaction.Machine.Installing.{
  call, install_log, finish_install, take_in, acknowledge_leader, handle_install_snapshot,
}
use compaction.Machine.{Node}
use compaction.Prelude.{arith}
use compaction.Machine.{InstallSnapshotResponse}
use compaction.Config.{ClusterConfig}
use compaction.Prelude.Exec.{gets, modify, ◌>>=◌, ◌>>◌}
use compaction.Machine.Installing.{adopt_config, session_for}
use compaction.Log.Manager.Invariant.{discard-IsManaged, reset-IsManaged}
use compaction.Prelude.{ltb}
use compaction.State.Persistent.{get_current_term}
use compaction.Machine.{persistent}
use compaction.Machine.Steps.Reads.{get_current_term_same}
use compaction.Machine.Steps.{Settles, Allows, Within, Anyone, IsFollower}
use compaction.Machine.Steps.Rules.{
  Within-read, Within-if, Within-return, become_follower-Settles, Within-bind, Within-follow,
  Within-commit, Within-apply, Within-log, Within-settle,
}
use compaction.Machine.Steps.Reads.{within_rules}

-- A leader's message that is acknowledged leaves a follower.
acknowledge-Settles :
    (p : NodeId) (r : InstallSnapshotRequest) (t : ℕ) → Settles (acknowledge_leader p r t)
acknowledge-Settles p r t = record {
  at = λ n. ground (arith, (become_follower-Settles r.term (some r.leader_id)).at n);
}

-- What the handler does after the acknowledgement.
abbrev acknowledged :
    (Buffer → Result (Unit {0}))
    → ℕ
    → NodeId
    → InstallSnapshotRequest
    → Exec Node InstallSnapshotResponse
acknowledged install now from r = do
  modify (λ n. record n { last_leader_contact_at = now })
  session ← gets (λ n. session_for from r n.install_snapshot_session)
  take_in install r session

module _ (R : Node → Node → Type 0) (S : Allows R) where
  Within-call : (r : Result (Unit {0})) → Within R IsFollower (call r)
  Within-call r = record { at = λ n h. (S.carries.same n, h) }

  install_log-Within :
      (f : Buffer → Result (Unit {0})) (i t : ℕ) (b : Buffer)
      → Within R IsFollower (install_log f i t b)
  unfolding install_log
  install_log-Within f i t b =
      search (within_rules, Within-call, Within-log, discard-IsManaged, reset-IsManaged) depth 16

  adopt_config-Within : (c : ClusterConfig) → Within R IsFollower (adopt_config c)
  adopt_config-Within c = search (within_rules, Within-apply, Within-commit) depth 9

  finish_install-Within :
      (f : Buffer → Result (Unit {0})) (r : InstallSnapshotRequest) (b : Buffer)
      → Within R IsFollower (finish_install f r b)
  unfolding finish_install
  finish_install-Within f r b =
      search (within_rules, install_log-Within, adopt_config-Within) depth 16

  take_in-Within :
      (f : Buffer → Result (Unit {0})) (r : InstallSnapshotRequest)
      (o : Option SnapshotInstallSession)
      → Within R IsFollower (take_in f r o)
  take_in-Within f r none = search within_rules
  take_in-Within f r (some s) = search (within_rules, finish_install-Within) depth 14

  acknowledge-Within :
      (p : NodeId) (r : InstallSnapshotRequest) (t : ℕ) → Within R Anyone (acknowledge_leader p r t)
  acknowledge-Within p r t = search (within_rules, Within-follow) depth 9

  acknowledged-Within :
      (f : Buffer → Result (Unit {0})) (now : ℕ) (p : NodeId) (r : InstallSnapshotRequest)
      → Within R IsFollower (acknowledged f now p r)
  acknowledged-Within f now p r = search (within_rules, take_in-Within) depth 14

  taken :
      (f : Buffer → Result (Unit {0})) (now : ℕ) (p : NodeId) (r : InstallSnapshotRequest) (t : ℕ)
      → Within R Anyone (do acknowledge_leader p r t; acknowledged f now p r)
  taken f now p r t =
      Within-settle R S (acknowledge_leader p r t) (λ u. acknowledged f now p r)
        (acknowledge-Settles p r t) (acknowledge-Within p r t) (λ u. acknowledged-Within f now p r)

  pub handle_install_snapshot-Within :
      (f : Buffer → Result (Unit {0})) (now : ℕ) (p : NodeId) (r : InstallSnapshotRequest)
      → Within R Anyone (handle_install_snapshot f now p r)
  unfolding handle_install_snapshot
  handle_install_snapshot-Within f now p r =
      Within-bind R Anyone S.carries (persistent get_current_term) _
        (Within-read R Anyone S.carries get_current_term get_current_term_same)
        (λ t.
          Within-if R Anyone S.carries (ltb r.term t) _ _ (Within-return R Anyone S.carries _)
            (taken f now p r t))
