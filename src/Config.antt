-- ===== src/Config.antt =====
-- packages/raft-core/src/config/ClusterConfig.ts: the voters and learners of a cluster.
pub mod Quorum
pub mod Manager
pub mod Node
pub mod Sorting
pub mod Equality
use compaction.Prelude.{ℕ, ◌+◌, ◌/◌, Bool, ◌||◌, List, [], ◌∷◌, any, length, str_eq, String}
use compaction.Storage.Meta.{NodeId}

pub record ClusterMember : Type 0 where
  pub id : NodeId
  pub address : String

pub record ClusterConfig : Type 0 where
  pub voters : List ClusterMember
  pub learners : List ClusterMember

unfoldable pub is_voter : ClusterConfig → NodeId → Bool
is_voter config node_id = any (λ m. str_eq m.id node_id) config.voters

unfoldable pub is_learner : ClusterConfig → NodeId → Bool
is_learner config node_id = any (λ m. str_eq m.id node_id) config.learners

unfoldable pub is_node_in_cluster : ClusterConfig → NodeId → Bool
unfolding is_voter is_learner
is_node_in_cluster config node_id = is_voter config node_id || is_learner config node_id

unfoldable pub get_quorum_size : ClusterConfig → ℕ
get_quorum_size config = length config.voters / 2 + 1
