-- ===== src/Machine/Steps/Followers.antt =====
-- The handler of AppendEntries in StateMachine.ts, in the relations that allow its parts.
use compaction.Prelude.{ℕ, zero, suc, ◌+◌, Option, none, some, List, [], ◌∷◌}
use compaction.Config.{ClusterConfig}
use compaction.Log.{LogEntry}
use compaction.Prelude.Exec.{◌>>◌}
use compaction.Log.Manager.Queries.{config_of, get_entry}
use compaction.Machine.{log, AppendEntriesRequest}
use compaction.Machine.Replication.{
  apply_config, apply_configs, commit_if, commit_configs, follow_commit, reject_mismatch, take_over,
  accept_entries, handle_append_entries,
}
use compaction.Machine.{Node}
use compaction.Prelude.{Bool, not, if◌then◌else◌}
use compaction.Log.Manager.Reconcile.{append_entries_from}
use compaction.Log.Manager.Reconcile.Keeping.{reconcile-IsManaged}
use compaction.Machine.Steps.{Allows, Within, Anyone, IsFollower}
use compaction.Machine.Steps.Rules.{
  become_follower-Settles, Within-bind, Within-follow, Within-commit, Within-apply, Within-log,
  Within-log_read, Within-settle,
}
use compaction.Machine.Steps.Reads.{within_rules, get_entry_same}

module _ (R : Node → Node → Type 0) (S : Allows R) where
  apply_config-Within : (o : Option ClusterConfig) → Within R IsFollower (apply_config o)
  apply_config-Within none = search within_rules
  apply_config-Within (some c) = Within-apply R S c

  apply_configs-Within : (es : List LogEntry) → Within R IsFollower (apply_configs es)
  unfolding apply_configs
  apply_configs-Within [] = search within_rules
  apply_configs-Within (e ∷ es) =
      Within-bind R IsFollower S.carries (apply_config (config_of (some e))) (λ _. apply_configs es)
        (apply_config-Within _) (λ _. apply_configs-Within es)

  commit_if-Within : (o : Option ClusterConfig) → Within R IsFollower (commit_if o)
  commit_if-Within none = search within_rules
  commit_if-Within (some c) = Within-commit R IsFollower S c

  commit_configs-Within : (k i : ℕ) → Within R IsFollower (commit_configs k i)
  unfolding commit_configs
  commit_configs-Within zero i = search within_rules
  commit_configs-Within (suc k) i =
      Within-bind R IsFollower S.carries (log (get_entry i))
        (λ x. commit_if (config_of x) >> commit_configs k (i + 1))
        (Within-log_read R IsFollower S.carries _ (get_entry_same i))
        (λ x.
          Within-bind R IsFollower S.carries (commit_if (config_of x))
            (λ _. commit_configs k (i + 1)) (commit_if-Within _)
            (λ _. commit_configs-Within k (i + 1)))

  follow_commit-Within : (c i : ℕ) → Within R IsFollower (follow_commit c i)
  unfolding follow_commit
  follow_commit-Within c i = search (within_rules, commit_configs-Within) depth 14

  reject_mismatch-Within : (i : ℕ) → Within R IsFollower (reject_mismatch i)
  unfolding reject_mismatch
  reject_mismatch-Within i = search within_rules

  take_over-Within : (i : ℕ) (es : List LogEntry) → Within R IsFollower (take_over i es)
  take_over-Within i [] = search within_rules
  take_over-Within i (e ∷ es) =
      Within-bind R IsFollower S.carries (log (append_entries_from i (e ∷ es)))
        (λ _. apply_configs (e ∷ es)) (Within-log R IsFollower S _ (reconcile-IsManaged i (e ∷ es)))
        (λ _. apply_configs-Within (e ∷ es))

  accept_entries-Within : (r : AppendEntriesRequest) → Within R IsFollower (accept_entries r)
  unfolding accept_entries
  accept_entries-Within r = search (within_rules, take_over-Within, follow_commit-Within) depth 9

  settled-Within :
      (r : AppendEntriesRequest) (b : Bool)
      → Within R IsFollower (if not b then reject_mismatch r.prev_log_index else accept_entries r)
  settled-Within r b = search (within_rules, reject_mismatch-Within, accept_entries-Within)

  pub handle_append_entries-Within :
      (now : ℕ) (r : AppendEntriesRequest) → Within R Anyone (handle_append_entries now r)
  unfolding handle_append_entries
  handle_append_entries-Within now r =
      search (Within-settle, Within-follow, become_follower-Settles, within_rules, settled-Within)
        depth 14
