-- ===== src/Machine/Steps/Leaders.antt =====
-- The handler of AppendEntries answers in StateMachine.ts, in the relations that allow its parts.
use compaction.Prelude.{refl, ℕ, zero, suc, ◌+◌, Option, none, some}
use compaction.Storage.Meta.{NodeId}
use compaction.Prelude.Exec.{Exec}
use compaction.Config.{ClusterConfig}
use compaction.State.Leader.{LeaderState}
use compaction.Prelude.Exec.{◌>>◌}
use compaction.Log.Manager.Queries.{config_of, get_entry}
use compaction.Machine.{log, AppendEntriesResponse}
use compaction.Machine.Leading.{
  tracked, leading, on_leader_state, commit_config_at, commit_each, step_down_unless_voter,
  advance_to, require_state, try_advance_commit_index, count_success, backtrack, count_failure,
  count_answer, handle_append_entries_response, trigger_replication,
}
use compaction.Machine.{Node}
use compaction.Machine.Steps.{Allows, Within, Anyone}
use compaction.Machine.Steps.Rules.{Within-bind, Within-follow, Within-commit, Within-log_read}
use compaction.Machine.Steps.Transitions.{send_heartbeats-Within}
use compaction.Machine.Steps.Rules.{unmoved}
use compaction.Machine.Steps.Reads.{within_rules, get_entry_same}

module _ (R : Node → Node → Type 0) (S : Allows R) where
  pub on_leader_state-Within :
      {A : Type 0} (o : Option LeaderState) (f : Exec LeaderState A)
      → Within R Anyone (on_leader_state o f)
  on_leader_state-Within none f = search within_rules
  on_leader_state-Within (some s) f = record {
    at = λ n h. (
      S.carries.frame n (leading s f n).1
          (unmoved n (leading s f n).1 refl refl refl refl refl refl refl),
      h,
    );
  }

  pub tracked-Within : {A : Type 0} (f : Exec LeaderState A) → Within R Anyone (tracked f)
  tracked-Within f = search (within_rules, on_leader_state-Within)

  commit_config_at-Within : (o : Option ClusterConfig) → Within R Anyone (commit_config_at o)
  commit_config_at-Within none = search within_rules
  commit_config_at-Within (some c) = search (within_rules, Within-commit) depth 9

  commit_each-Within : (k i : ℕ) → Within R Anyone (commit_each k i)
  unfolding commit_each
  commit_each-Within zero i = search within_rules
  commit_each-Within (suc k) i =
      Within-bind R Anyone S.carries (log (get_entry i))
        (λ x. commit_config_at (config_of x) >> commit_each k (i + 1))
        (Within-log_read R Anyone S.carries _ (get_entry_same i))
        (λ x.
          Within-bind R Anyone S.carries (commit_config_at (config_of x))
            (λ _. commit_each k (i + 1)) (commit_config_at-Within _)
            (λ _. commit_each-Within k (i + 1)))

  step_down_unless-Within : (t : ℕ) → Within R Anyone (step_down_unless_voter t)
  step_down_unless-Within t = search (within_rules, Within-follow) depth 9

  advance_to-Within : (t i : ℕ) → Within R Anyone (advance_to t i)
  unfolding advance_to
  advance_to-Within t i =
      search (within_rules, commit_each-Within, step_down_unless-Within) depth 14

  require_state-Within : (o : Option LeaderState) → Within R Anyone (require_state o)
  require_state-Within none = search within_rules
  require_state-Within (some s) = search within_rules

  try_advance-Within : Within R Anyone try_advance_commit_index
  unfolding try_advance_commit_index
  try_advance-Within =
      search (within_rules, require_state-Within, tracked-Within, advance_to-Within) depth 14

  count_success-Within : (p : NodeId) (o : Option ℕ) → Within R Anyone (count_success p o)
  count_success-Within p none = search within_rules
  count_success-Within p (some i) = search (within_rules, tracked-Within, try_advance-Within)

  backtrack-Within : (p : NodeId) (i t : Option ℕ) → Within R Anyone (backtrack p i t)
  backtrack-Within p (some i) (some t) = search (within_rules, tracked-Within)
  backtrack-Within p _ _ = search (within_rules, tracked-Within)

  count_failure-Within :
      (p : NodeId) (r : AppendEntriesResponse) → Within R Anyone (count_failure p r)
  count_failure-Within p r = search (within_rules, tracked-Within, backtrack-Within) depth 9

  count_answer-Within :
      (p : NodeId) (r : AppendEntriesResponse) (o : Option LeaderState)
      → Within R Anyone (count_answer p r o)
  count_answer-Within p r none = search within_rules
  count_answer-Within p r (some s) =
      search (within_rules, Within-follow, count_success-Within, count_failure-Within) depth 14

  pub handle_append_entries_response-Within :
      (p : NodeId) (r : AppendEntriesResponse)
      → Within R Anyone (handle_append_entries_response p r)
  unfolding handle_append_entries_response
  handle_append_entries_response-Within p r = search (within_rules, count_answer-Within)

  pub trigger_replication-Within : Within R Anyone trigger_replication
  unfolding trigger_replication
  trigger_replication-Within = search (within_rules, send_heartbeats-Within)
