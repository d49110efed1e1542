-- ===== src/Cluster.antt =====
-- A cluster of the nodes of packages/raft-core/src/core/StateMachine.ts, each event handled at one
-- node, and the votes that were cast so far.
pub mod Standing
pub mod Casting
pub mod Sound
pub mod Moves
pub mod Invariant
pub mod Safety
use compaction.Prelude.{
  ℕ, none, Bool, true, false, not, ◌&&◌, List, [], ◌∷◌, ◌++◌, ◌≡◌, ◌⊎◌, if◌then◌else◌, str_eq,
}
use compaction.Prelude.Exec.{Result, ok, err}
use compaction.Storage.Meta.{NodeId}
use compaction.Config.{ClusterConfig}
use compaction.Machine.{
  Node, RequestVoteRequest, RequestVoteResponse, follower, candidate, same_state,
}
use compaction.Machine.Elections.{handle_request_vote}
use compaction.Machine.Ready.{IsReady}
use compaction.Machine.Runs.{
  Event, step, request_vote, append_entries, install_snapshot, vote_answer, pre_vote_answer,
  append_answer, election_timeout, heartbeat, starting, stopping,
}

-- A vote in a term.
pub record Ballot : Type 0 where
  pub voter : NodeId
  pub term : ℕ
  pub candidate_id : NodeId

abbrev pub Cast : NodeId → ℕ → NodeId → List Ballot → Type 0
Cast v t c [] = ⊥
Cast v t c (b ∷ bs) = ((b.voter ≡ v) × (b.term ≡ t) × (b.candidate_id ≡ c)) ⊎ Cast v t c bs

pub record Cluster : Type 0 where
  pub nodes : NodeId → Node
  pub cast : List Ballot

abbrev pub is_grant : Result RequestVoteResponse → Bool
is_grant (ok a) = a.vote_granted
is_grant (err e) = false

-- A vote that the handler answers with.
abbrev pub granted_vote : NodeId → RequestVoteRequest → Bool → List Ballot
granted_vote i r true = record { voter = i; term = r.term; candidate_id = r.candidate_id } ∷ []
granted_vote i r false = []

abbrev pub grants : ℕ → RequestVoteRequest → Node → Bool
grants now r n = not r.pre_vote && is_grant (handle_request_vote now r n).0

abbrev pub answered_vote : NodeId → Event → Node → List Ballot
answered_vote i (request_vote now r) n = granted_vote i r (grants now r n)
answered_vote i e n = []

-- A candidate's vote for itself.
abbrev pub own_vote : NodeId → Node → List Ballot
own_vote i n =
    if same_state n.current_state candidate
    then record { voter = i; term = n.persistent_state.current_term; candidate_id = i } ∷ []
    else []

abbrev pub put : NodeId → Node → (NodeId → Node) → NodeId → Node
put i n nodes j = if str_eq i j then n else nodes j

-- The cluster after the event at a node.
abbrev pub after : Cluster → NodeId → Event → Cluster
after s i e = record {
  nodes = put i (step (s.nodes i) e) s.nodes;
  cast = own_vote i (step (s.nodes i) e) ++ (answered_vote i e (s.nodes i) ++ s.cast);
}

-- A granted vote reaches a node only if it was cast for it, in the term of the answer.
abbrev pub IsDeliverable : Cluster → NodeId → Event → Type 0
IsDeliverable s i (vote_answer from r) = r.vote_granted ≡ true → Cast from r.term i s.cast
IsDeliverable s i e = Unit

-- Any event at any node that leaves its active configuration the one of the cluster.
pub data Step (config : ClusterConfig) : Cluster → Cluster → Type 0 where
  handles :
      (s : Cluster) (i : NodeId) (e : Event)
      → IsDeliverable s i e
      → (step (s.nodes i) e).config_manager.active_config ≡ config
      → Step config s (after s i e)

-- Usable followers of one configuration, and no vote.
pub record IsInitial (config : ClusterConfig) (s : Cluster) : Type 0 where
  pub ready : (i : NodeId) → IsReady (s.nodes i)
  pub node_id : (i : NodeId) → (s.nodes i).node_id ≡ i
  pub active : (i : NodeId) → (s.nodes i).config_manager.active_config ≡ config
  pub role : (i : NodeId) → (s.nodes i).current_state ≡ follower
  pub uncast : s.cast ≡ []

pub data Reach (config : ClusterConfig) : Cluster → Type 0 where
  initial : (s : Cluster) → IsInitial config s → Reach config s
  next : (s s' : Cluster) → Reach config s → Step config s s' → Reach config s'
