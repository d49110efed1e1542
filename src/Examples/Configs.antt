-- ===== src/Examples/Configs.antt =====
-- A node's configuration of core/Config.ts that is accepted.
use compaction.Prelude.{◌≡◌, ◌↔◌, none, [], ◌∷◌}
use compaction.Prelude.Exec.{ok}
use compaction.Config.Node.{RaftConfig, IsValidConfig, validate_config, validate_config_iff}
use compaction.Prelude.{true}
use compaction.Examples.{trio, member}
use compaction.Examples.Orders.{by_characters}
use compaction.Config.{ClusterConfig}
use compaction.Config.Equality.{SameMembers, cluster_configs_equal, cluster_configs_equal_iff}
use compaction.Lock.Fairness.{
  acquire_by, release_it, History, IsFair, follow_all, fresh, lock-IsFair,
}
use compaction.Prelude.{ℕ}

abbrev usual : RaftConfig
usual = record {
  node_id = "a";
  address = "localhost:1";
  peers = record { id = "b"; address = "localhost:2" } ∷ [];
  election_timeout_min_ms = 150;
  election_timeout_max_ms = 300;
  heartbeat_interval_ms = 50;
  snapshot_threshold = none;
}

validate_config_iff_example : (validate_config usual ≡ ok tt) ↔ IsValidConfig usual
validate_config_iff_example = validate_config_iff usual

abbrev three_callers : History ℕ
three_callers =
    follow_all fresh (acquire_by 1 ∷ acquire_by 2 ∷ acquire_by 3 ∷ release_it ∷ release_it ∷ [])

lock-IsFair_example : IsFair three_callers
lock-IsFair_example =
    lock-IsFair (acquire_by 1 ∷ acquire_by 2 ∷ acquire_by 3 ∷ release_it ∷ release_it ∷ [])

abbrev reordered : ClusterConfig
reordered = record { voters = member "c" ∷ member "a" ∷ member "b" ∷ []; learners = [] }

cluster_configs_equal_iff_example : (cluster_configs_equal by_characters trio reordered ≡ true) ↔ (
    SameMembers by_characters trio.voters reordered.voters
    × SameMembers by_characters trio.learners reordered.learners)
cluster_configs_equal_iff_example = cluster_configs_equal_iff by_characters trio reordered
