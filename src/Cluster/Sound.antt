-- ===== src/Cluster/Sound.antt =====
-- What is to hold in every reachable state of a cluster of StateMachine.ts nodes.
use compaction.Prelude.{ℕ, some, true, ◌≡◌, ◌<◌, ◌⊎◌}
use compaction.Storage.Meta.{NodeId}
use compaction.State.Persistent.{PersistentState}
use compaction.Config.{ClusterConfig, is_voter}
use compaction.Machine.Ready.{IsReady}
use compaction.Cluster.{Cluster, Cast}
use compaction.Cluster.Standing.{Standing}

-- The vote in the term is recorded, or the voter has left the term.
abbrev pub Recorded : ℕ → NodeId → PersistentState → Type 0
Recorded t c p = (t < p.current_term) ⊎ ((p.current_term ≡ t) × (p.voted_for ≡ some c))

pub record IsSound (config : ClusterConfig) (s : Cluster) : Type 0 where
  pub ready : (i : NodeId) → IsReady (s.nodes i)
  pub node_id : (i : NodeId) → (s.nodes i).node_id ≡ i
  pub active : (i : NodeId) → (s.nodes i).config_manager.active_config ≡ config
  pub standing : (i : NodeId) → Standing config s.cast i (s.nodes i)
  pub recorded :
      (v : NodeId) (t : ℕ) (c : NodeId)
      → Cast v t c s.cast
      → Recorded t c (s.nodes v).persistent_state
  pub voters : (v : NodeId) (t : ℕ) (c : NodeId) → Cast v t c s.cast → is_voter config v ≡ true
  pub unique : (v : NodeId) (t : ℕ) (c d : NodeId) → Cast v t c s.cast → Cast v t d s.cast → c ≡ d
