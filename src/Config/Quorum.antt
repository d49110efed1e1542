-- ===== src/Config/Quorum.antt =====
-- Quorums of ClusterConfig.ts and the voters that they share.
use compaction.Prelude.{
  ℕ, suc, ◌+◌, ◌≤◌, ◌<◌, Bool, true, false, List, [], ◌∷◌, ◌≡◌, arith, length, includes, Distinct,
  All, any, str_eq, eq_iff, if◌then◌else◌, refl, Bool-cases, inl, inr,
}
use compaction.Storage.Meta.{NodeId}
use compaction.Config.{ClusterMember, ClusterConfig, is_voter, get_quorum_size}

abbrev pub ids : List ClusterMember → List NodeId
ids [] = []
ids (m ∷ ms) = m.id ∷ ids ms

abbrev count_if : (NodeId → Bool) → List NodeId → ℕ
count_if p [] = 0
count_if p (v ∷ vs) = if p v then suc (count_if p vs) else count_if p vs

-- More passes of two tests than there are voters: a voter passes both.
both_pass :
    (p q : NodeId → Bool) (vs : List NodeId)
    → length vs < count_if p vs + count_if q vs
    → (v : NodeId) × (p v ≡ true) × (q v ≡ true)
both_pass p q [] h = absurd (omega arith)
both_pass p q (v ∷ vs) h = elim (Bool-cases (p v)) [
  | inl pv ↦ elim (Bool-cases (q v)) [
    | inl qv ↦ (v, pv, qv)
    | inr qv ↦ both_pass p q vs (ground arith)
  ]
  | inr pv ↦ both_pass p q vs (ground arith)
]

count_if-none : (vs : List NodeId) → count_if (λ x. false) vs ≡ 0
count_if-none [] = refl
count_if-none (v ∷ vs) = count_if-none vs

count_if-grows :
    (s : List NodeId) (a : NodeId) (vs : List NodeId)
    → count_if (includes s) vs ≤ count_if (includes (a ∷ s)) vs
count_if-grows s a [] = omega arith
count_if-grows s a (v ∷ vs) = ground (arith, count_if-grows s a vs)

count_if-new :
    (s : List NodeId) (a : NodeId) (vs : List NodeId)
    → includes vs a ≡ true
    → includes s a ≡ false
    → suc (count_if (includes s) vs) ≤ count_if (includes (a ∷ s)) vs
count_if-new s a [] m n = ground arith
count_if-new s a (v ∷ vs) m n = elim (Bool-cases (str_eq v a)) [
  | inl same ↦ ground (arith, eq_iff v a, eq_iff a v, count_if-grows s a vs)
  | inr other ↦ ground (arith, eq_iff a v, count_if-new s a vs (ground arith) n)
]

length-le-count_if :
    (s vs : List NodeId)
    → Distinct s
    → All (λ a. includes vs a ≡ true) s
    → length s ≤ count_if (includes s) vs
length-le-count_if [] vs d h = ground (arith)
length-le-count_if (a ∷ s) vs d h =
    omega (arith, count_if-new s a vs h.0 d.0, length-le-count_if s vs d.1 h.1)

is_voter-includes :
    (ms : List ClusterMember) (a : NodeId) → any (λ m. str_eq m.id a) ms ≡ includes (ids ms) a
is_voter-includes [] a = refl
is_voter-includes (m ∷ ms) a = ground (arith, is_voter-includes ms a)

pub length-ids : (ms : List ClusterMember) → length (ids ms) ≡ length ms
length-ids [] = refl
length-ids (m ∷ ms) = omega (arith, length-ids ms)

All-voters :
    (config : ClusterConfig) (s : List NodeId)
    → All (λ a. is_voter config a ≡ true) s
    → All (λ a. includes (ids config.voters) a ≡ true) s
unfolding is_voter
All-voters config [] h = tt
All-voters config (a ∷ s) h =
    (ground (arith, is_voter-includes config.voters a), All-voters config s h.1)

-- Any two lists of distinct voters of one configuration that each reach its quorum size have a
-- voter in common.
pub quorum_overlap :
    (config : ClusterConfig) (s t : List NodeId)
    → Distinct s
    → Distinct t
    → All (λ a. is_voter config a ≡ true) s
    → All (λ a. is_voter config a ≡ true) t
    → get_quorum_size config ≤ length s
    → get_quorum_size config ≤ length t
    → (v : NodeId) × (includes s v ≡ true) × (includes t v ≡ true)
unfolding get_quorum_size
quorum_overlap config s t ds dt vs vt hs ht =
    both_pass (includes s) (includes t) (ids config.voters) (
      omega (
        arith,
        length-ids config.voters,
        length-le-count_if s (ids config.voters) ds (All-voters config s vs),
        length-le-count_if t (ids config.voters) dt (All-voters config t vt),
      ))
