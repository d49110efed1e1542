-- ===== src/Config/Equality.antt =====
-- `clusterConfigsEqual` of packages/raft-core/src/config/ClusterConfig.ts: equality of the voters and
-- of the learners, whatever their order.
use compaction.Prelude.{Bool, true, ◌&&◌, List, ◌≡◌, ◌↔◌, sym, ap, ◌∙◌, arith, length, ◌==◌}
use compaction.Storage.Meta.{NodeId}
use compaction.Config.{ClusterMember, ClusterConfig}
use compaction.Config.Quorum.{ids, length-ids}
use compaction.Config.Sorting.{
  SortOrder, count, sort, same_ids, count-sort, length-sort, sort-IsSorted, sorted_unique,
  same_ids_path, same_ids_self,
}

module _ (O : SortOrder) where
  unfoldable pub cluster_configs_equal : ClusterConfig → ClusterConfig → Bool
  cluster_configs_equal a b =
      (length a.voters == length b.voters)
      && ((length a.learners == length b.learners)
          && (same_ids (sort O (ids a.voters)) (sort O (ids b.voters))
              && same_ids (sort O (ids a.learners)) (sort O (ids b.learners))))

  -- Every identifier occurs as often on both sides.
  abbrev pub SameMembers : List ClusterMember → List ClusterMember → Type 0
  SameMembers ms ns = (a : NodeId) → count a (ids ms) ≡ count a (ids ns)

  counted_same :
      (ms ns : List ClusterMember)
      → length ms ≡ length ns
      → same_ids (sort O (ids ms)) (sort O (ids ns)) ≡ true
      → SameMembers ms ns
  counted_same ms ns l h a =
      let sorted_length : length (sort O (ids ms)) ≡ length (sort O (ids ns)) =
        omega
          (arith, length-sort O (ids ms), length-sort O (ids ns), length-ids ms, length-ids ns) in
      let q = same_ids_path O (sort O (ids ms)) (sort O (ids ns)) sorted_length h in
      sym (count-sort O a (ids ms)) ∙ ap (count a) q ∙ count-sort O a (ids ns)

  sorted_same : (ms ns : List ClusterMember) → SameMembers ms ns → sort O (ids ms) ≡ sort O (ids ns)
  sorted_same ms ns e =
      sorted_unique O (sort O (ids ms)) (sort O (ids ns)) (sort-IsSorted O (ids ms))
        (sort-IsSorted O (ids ns))
        (λ a. count-sort O a (ids ms) ∙ e a ∙ sym (count-sort O a (ids ns)))

  length_same : (ms ns : List ClusterMember) → SameMembers ms ns → length ms ≡ length ns
  length_same ms ns e =
      let q = ap (λ (xs : List NodeId). length xs) (sorted_same ms ns e) in
      omega (arith, q, length-sort O (ids ms), length-sort O (ids ns), length-ids ms, length-ids ns)

  same_ids_sorted :
      (ms ns : List ClusterMember)
      → SameMembers ms ns
      → same_ids (sort O (ids ms)) (sort O (ids ns)) ≡ true
  same_ids_sorted ms ns e = rw (sorted_same ms ns e) (same_ids_self O (sort O (ids ns)))

  -- For any total order that sorting puts identifiers in, two configurations compare equal exactly
  -- if every identifier occurs as often among the voters of both and as often among the learners of
  -- both, whatever the order of the members and whatever their addresses.
  pub cluster_configs_equal_iff :
      (a b : ClusterConfig)
      → (cluster_configs_equal a b ≡ true)
        ↔ (SameMembers a.voters b.voters × SameMembers a.learners b.learners)
  unfolding cluster_configs_equal
  cluster_configs_equal_iff a b = (
    λ h. (
      counted_same a.voters b.voters (ground arith) (ground arith),
      counted_same a.learners b.learners (ground arith) (ground arith),
    ),
    λ h. ground (
      arith,
      length_same a.voters b.voters h.0,
      length_same a.learners b.learners h.1,
      same_ids_sorted a.voters b.voters h.0,
      same_ids_sorted a.learners b.learners h.1,
    ),
  )
