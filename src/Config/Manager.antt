-- ===== src/Config/Manager.antt =====
-- packages/raft-core/src/config/ConfigManager.ts: the active and the committed configuration.
use compaction.Prelude.{
  ℕ, Bool, true, false, not, Option, none, some, List, [], ◌∷◌, ◌++◌, map, filter, str_eq,
  if◌then◌else◌, String,
}
use compaction.Prelude.Exec.{Exec, Result, ok, storage, throw_if, gets, modify, ◌>>=◌, ◌>>◌}
use compaction.Storage.Meta.{NodeId}
use compaction.Config.Sorting.{SortOrder}
use compaction.Config.Equality.{cluster_configs_equal}
use compaction.Storage.Config
use compaction.Storage.Config.{ConfigStorage}
use compaction.Config.{ClusterMember, ClusterConfig, is_voter, is_learner, get_quorum_size}

pub record ConfigManager : Type 0 where
  pub active_config : ClusterConfig
  pub committed_config : ClusterConfig
  pub initialized : Bool
  pub config_storage : ConfigStorage

abbrev pub new : ConfigStorage → ClusterConfig → ConfigManager
new s initial = record {
  active_config = initial;
  committed_config = initial;
  initialized = false;
  config_storage = s;
}

abbrev wrap : {A : Type 0} → ConfigManager → Result A × ConfigStorage → Result A × ConfigManager
wrap c (r, s) = (r, record c { config_storage = s })

abbrev on_storage : {A : Type 0} → Exec ConfigStorage A → Exec ConfigManager A
on_storage f c = wrap c (f c.config_storage)

unfoldable pub ensure_initialized : Exec ConfigManager Unit
ensure_initialized c = throw_if (not c.initialized) storage c

abbrev pub adopt : Option ClusterConfig → Exec ConfigManager (Option ClusterConfig)
adopt none c = (ok none, record c { initialized = true })
adopt (some config) c = (
  ok (some config),
  record c { active_config = config; committed_config = config; initialized = true },
)

unfoldable pub initialize : Exec ConfigManager (Option ClusterConfig)
unfolding Config.read
initialize c =
    if c.initialized
    then (ok (some c.committed_config), c)
    else (on_storage Config.read >>= adopt) c

unfoldable pub apply_config_entry : ClusterConfig → Exec ConfigManager Unit
unfolding ensure_initialized
apply_config_entry config = do ensure_initialized; modify (λ c. record c { active_config = config })

unfoldable pub commit_config : ClusterConfig → Exec ConfigManager Unit
unfolding ensure_initialized Config.write
commit_config config = do
  ensure_initialized
  on_storage (Config.write config.voters config.learners)
  modify (λ c. record c { committed_config = config })

abbrev asking : {A : Type 0} → (ConfigManager → A) → Exec ConfigManager A
asking f = do ensure_initialized; gets f

unfoldable pub get_active_config : Exec ConfigManager ClusterConfig
unfolding ensure_initialized
get_active_config = asking (λ c. c.active_config)

unfoldable pub get_committed_config : Exec ConfigManager ClusterConfig
unfolding ensure_initialized
get_committed_config = asking (λ c. c.committed_config)

abbrev pub voters_of : ConfigManager → List NodeId
voters_of c = map (λ v. v.id) c.active_config.voters

unfoldable pub get_voters : Exec ConfigManager (List NodeId)
unfolding ensure_initialized
get_voters = asking voters_of

unfoldable pub get_learners : Exec ConfigManager (List NodeId)
unfolding ensure_initialized
get_learners = asking (λ c. map (λ l. l.id) c.active_config.learners)

abbrev pub peers_of : NodeId → ConfigManager → List NodeId
peers_of self c =
    filter (λ i. not (str_eq i self))
      (map (λ m. m.id) (c.active_config.voters ++ c.active_config.learners))

unfoldable pub get_all_peers : NodeId → Exec ConfigManager (List NodeId)
unfolding ensure_initialized
get_all_peers self = asking (peers_of self)

-- `members.find((m) => m.id === nodeId)?.address ?? null`
abbrev pub find_address : NodeId → List ClusterMember → Option String
find_address node_id [] = none
find_address node_id (m ∷ ms) =
    if str_eq m.id node_id then some m.address else find_address node_id ms

unfoldable pub get_member_address : NodeId → Exec ConfigManager (Option String)
unfolding ensure_initialized
get_member_address node_id =
    asking (λ c. find_address node_id (c.active_config.voters ++ c.active_config.learners))

unfoldable pub get_all_members : Exec ConfigManager (List ClusterMember)
unfolding ensure_initialized
get_all_members = asking (λ c. c.active_config.voters ++ c.active_config.learners)

unfoldable pub quorum_size : Exec ConfigManager ℕ
unfolding ensure_initialized get_quorum_size
quorum_size = asking (λ c. get_quorum_size c.active_config)

unfoldable pub voter : NodeId → Exec ConfigManager Bool
unfolding ensure_initialized is_voter
voter node_id = asking (λ c. is_voter c.active_config node_id)

unfoldable pub learner : NodeId → Exec ConfigManager Bool
unfolding ensure_initialized is_learner
learner node_id = asking (λ c. is_learner c.active_config node_id)

unfoldable pub has_pending_change : SortOrder → Exec ConfigManager Bool
unfolding ensure_initialized cluster_configs_equal
has_pending_change O =
    asking (λ c. not (cluster_configs_equal O c.active_config c.committed_config))
