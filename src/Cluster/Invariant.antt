-- ===== src/Cluster/Invariant.antt =====
-- What holds in every reachable state of a cluster of StateMachine.ts nodes.
use compaction.Prelude.{
  Option, ℕ, some, true, List, ◌≡◌, ◌⊎◌, inl, inr, sym, ◌∙◌, arith, str_eq, eq_iff, Bool-cases,
  subst,
}
use compaction.Storage.Meta.{NodeId}
use compaction.State.Persistent.{PersistentState}
use compaction.Config.{ClusterConfig}
use compaction.Machine.{Node}
use compaction.Machine.Ready.{IsReady}
use compaction.Machine.Runs.{Event, step}
use compaction.Machine.Voting.{Later, newer, first_vote, unchanged}
use compaction.Cluster.{
  Cluster, Ballot, Cast, put, after, IsDeliverable, handles, IsInitial, Reach, initial, next,
}
use compaction.Cluster.Standing.{Standing-more, Standing, idle}
use compaction.Cluster.Casting.{IsCaster, voted_by_event}
use compaction.Cluster.Sound.{Recorded, IsSound}
use compaction.Cluster.Moves.{moved, grows, later}

initial-IsSound : (config : ClusterConfig) (s : Cluster) → IsInitial config s → IsSound config s
initial-IsSound config s h = record {
  ready = h.ready;
  node_id = h.node_id;
  active = h.active;
  standing = λ i. idle (h.role i);
  recorded = λ v t c k. absurd (subst (Cast v t c) h.uncast k);
  voters = λ v t c k. absurd (subst (Cast v t c) h.uncast k);
  unique = λ v t c d k l. absurd (subst (Cast v t c) h.uncast k);
}

Recorded-Later :
    (t : ℕ) (c : NodeId) (p q : PersistentState) → Later p q → Recorded t c p → Recorded t c q
Recorded-Later t c p q (newer a) (inl b) = inl (omega arith)
Recorded-Later t c p q (newer a) (inr (b, v)) = inl (omega arith)
Recorded-Later t c p q (first_vote a n) (inl b) = inl (omega arith)
Recorded-Later t c p q (first_vote a n) (inr (b, v)) = cc
Recorded-Later t c p q (unchanged a e) (inl b) = inl (omega arith)
Recorded-Later t c p q (unchanged a e) (inr (b, v)) = inr (a ∙ b, e ∙ v)

same_vote : {o : Option NodeId} {a b : NodeId} → o ≡ some a → o ≡ some b → a ≡ b
same_vote x y = cc

put_elim :
    (P : NodeId → Node → Type 0) (i : NodeId) (n : Node) (nodes : NodeId → Node)
    → P i n
    → ((j : NodeId) → P j (nodes j))
    → (j : NodeId) → P j (put i n nodes j)
put_elim P i n nodes h k j = elim (Bool-cases (str_eq i j)) [
  | inl same ↦ rw same (subst (λ x. P x n) (ground (arith, eq_iff i j)) h)
  | inr other ↦ rw other (k j)
]

module _ (config : ClusterConfig) (s : Cluster) (h : IsSound config s) (i : NodeId) (e : Event)
    (d : IsDeliverable s i e) (a : (step (s.nodes i) e).config_manager.active_config ≡ config) where
  abbrev node_then : Node
  node_then = step (s.nodes i) e

  abbrev cast_now : List Ballot
  cast_now = (after s i e).cast

  here : IsReady node_then × (node_then.node_id ≡ i) × Standing config cast_now i node_then
  here = moved config s h i e d a

  more : (v : NodeId) (t : ℕ) (c : NodeId) → Cast v t c s.cast → Cast v t c cast_now
  more = grows config s h i e a

  -- The vote is the node's new one, or was cast before.
  cast_new :
      (v : NodeId) (t : ℕ) (c : NodeId)
      → Cast v t c cast_now
      → IsCaster config i v t c node_then ⊎ Cast v t c s.cast
  cast_new v t c k =
      voted_by_event config s.cast cast_now i v t c e (s.nodes i) (h.ready i) (h.node_id i)
        (h.active i) here.2 k

  here-Recorded : (t : ℕ) (c : NodeId) → Cast i t c s.cast → Recorded t c node_then.persistent_state
  here-Recorded t c k =
      Recorded-Later t c (s.nodes i).persistent_state node_then.persistent_state
        (later config s h i e a) (h.recorded i t c k)

  then-Recorded :
      (v : NodeId) (t : ℕ) (c : NodeId)
      → Cast v t c s.cast
      → Recorded t c ((after s i e).nodes v).persistent_state
  then-Recorded v t c k =
      put_elim (λ j n. Cast j t c s.cast → Recorded t c n.persistent_state) i node_then s.nodes
        (here-Recorded t c) (λ j. h.recorded j t c) v k

  caster-Recorded :
      (v : NodeId) (t : ℕ) (c : NodeId)
      → IsCaster config i v t c node_then
      → Recorded t c ((after s i e).nodes v).persistent_state
  caster-Recorded v t c k =
      subst (λ j. Recorded t c ((after s i e).nodes j).persistent_state) k.voter
        (let self : str_eq i i ≡ true = ground (arith, eq_iff i i) in
          rw self (inr (k.term, k.vote)))

  -- A new vote agrees with an old one of the same voter and term.
  new_agrees :
      (v : NodeId) (t : ℕ) (c b : NodeId)
      → IsCaster config i v t c node_then
      → Cast v t b s.cast
      → c ≡ b
  new_agrees v t c b k l =
      elim (here-Recorded t b (subst (λ j. Cast j t b s.cast) (sym k.voter) l)) [
        | inl past ↦ absurd (omega (arith, past, k.term))
        | inr (x, y) ↦ same_vote (k.vote) y
      ]

  others_standing : (j : NodeId) → Standing config cast_now j (s.nodes j)
  others_standing j = Standing-more config s.cast cast_now j (s.nodes j) more (h.standing j)

  after-IsSound : IsSound config (after s i e)
  after-IsSound = record {
    ready = put_elim (λ j n. IsReady n) i node_then s.nodes here.0 h.ready;
    node_id = put_elim (λ j n. n.node_id ≡ j) i node_then s.nodes here.1 h.node_id;
    active =
        put_elim (λ j n. n.config_manager.active_config ≡ config) i node_then s.nodes a h.active;
    standing =
        put_elim (λ j n. Standing config cast_now j n) i node_then s.nodes here.2 others_standing;
    recorded = λ v t c k. elim (cast_new v t c k) [
      | inl new ↦ caster-Recorded v t c new
      | inr old ↦ then-Recorded v t c old
    ];
    voters = λ v t c k. elim (cast_new v t c k) [
      | inl new ↦ rw (← new.voter) new.votes
      | inr old ↦ h.voters v t c old
    ];
    unique = λ v t c b k l. elim (cast_new v t c k) [
      | inl new ↦ elim (cast_new v t b l) [
        | inl new' ↦ same_vote new.vote new'.vote
        | inr old' ↦ new_agrees v t c b new old'
      ]
      | inr old ↦ elim (cast_new v t b l) [
        | inl new' ↦ sym (new_agrees v t b c new' old)
        | inr old' ↦ h.unique v t c b old old'
      ]
    ];
  }

-- In every reachable state, each node is usable, a candidate or leader has distinct voters behind
-- it, and the votes that were cast are recorded, by voters, and agree within a term.
pub Reach-IsSound : (config : ClusterConfig) (s : Cluster) → Reach config s → IsSound config s
Reach-IsSound config s (initial _ h) = initial-IsSound config s h
Reach-IsSound config s (next t _ r (handles _ i e d a)) =
    after-IsSound config t (Reach-IsSound config t r) i e d a
