-- ===== src/Cluster/Safety.antt =====
-- The leaders of one term in a cluster of StateMachine.ts nodes.
use compaction.Prelude.{
  ℕ, true, List, [], ◌∷◌, ◌≡◌, ◌≤◌, arith, All, length, includes, sym, str_eq, eq_iff, subst,
  Bool-cases, inl, inr,
}
use compaction.Storage.Meta.{NodeId}
use compaction.Config.{ClusterConfig, is_voter, get_quorum_size}
use compaction.Config.Quorum.{quorum_overlap}
use compaction.Machine.{Node, leader}
use compaction.Cluster.{Cast, Cluster, Reach}
use compaction.Cluster.Standing.{Standing, idle, campaigning, leading, IsBacked}
use compaction.Cluster.Sound.{IsSound}
use compaction.Cluster.Invariant.{Reach-IsSound}

-- The voters behind a leader.
record IsElected (config : ClusterConfig) (s : Cluster) (i : NodeId) (n : Node) : Type 0 where
  backed : IsBacked config s.cast i n
  enough : get_quorum_size config ≤ length n.votes_received

elected :
    (config : ClusterConfig) (s : Cluster) (i : NodeId) (n : Node)
    → Standing config s.cast i n
    → n.current_state ≡ leader
    → IsElected config s i n
elected config s i n (idle f) l = absurd (ground arith)
elected config s i n (campaigning r u m b) l = absurd (ground arith)
elected config s i n (leading r b k) l = record { backed = b; enough = k }

All-includes :
    (P : NodeId → Type 0) (xs : List NodeId) (a : NodeId) → All P xs → includes xs a ≡ true → P a
All-includes P [] a h e = cc
All-includes P (x ∷ xs) a h e = elim (Bool-cases (str_eq x a)) [
  | inl same ↦ subst P (ground (arith, eq_iff x a)) h.0
  | inr other ↦ All-includes P xs a h.1 (ground arith)
]

All-voters :
    (config : ClusterConfig) (s : Cluster) (i : NodeId) (t : ℕ) (xs : List NodeId)
    → IsSound config s
    → All (λ v. Cast v t i s.cast) xs
    → All (λ v. is_voter config v ≡ true) xs
All-voters config s i t [] h k = tt
All-voters config s i t (x ∷ xs) h k = (h.voters x t i k.0, All-voters config s i t xs h k.1)

-- In a cluster of one configuration that starts with usable followers and no vote, where any node
-- handles any event, whether the handler returns or throws, as long as no event leaves another
-- active configuration and a granted vote reaches a node only if it was cast for it in that term,
-- two nodes that lead in the same term are the same node.
pub one_leader :
    (config : ClusterConfig) (s : Cluster) (i j : NodeId)
    → Reach config s
    → (s.nodes i).current_state ≡ leader
    → (s.nodes j).current_state ≡ leader
    → (s.nodes i).persistent_state.current_term ≡ (s.nodes j).persistent_state.current_term
    → i ≡ j
one_leader config s i j r li lj e =
    let h = Reach-IsSound config s r in
    let a = elected config s i (s.nodes i) (h.standing i) li in
    let b = elected config s j (s.nodes j) (h.standing j) lj in
    let t = (s.nodes i).persistent_state.current_term in
    let u = (s.nodes j).persistent_state.current_term in
    let (v, vi, vj) =
      quorum_overlap config (s.nodes i).votes_received (s.nodes j).votes_received a.backed.distinct
        b.backed.distinct (All-voters config s i t (s.nodes i).votes_received h a.backed.backed)
        (All-voters config s j u (s.nodes j).votes_received h b.backed.backed) a.enough b.enough in
    h.unique v t i j
      (All-includes (λ x. Cast x t i s.cast) (s.nodes i).votes_received v a.backed.backed vi)
      (subst (λ k. Cast v k j s.cast) (sym e)
        (All-includes (λ x. Cast x u j s.cast) (s.nodes j).votes_received v b.backed.backed vj))
