-- ===== src/Machine/Replication/Commit.antt =====
-- How far `handleAppendEntries` of StateMachine.ts moves the commit index.
use compaction.Prelude.{
  ◌∙◌, Bool-cases, inl, inr, ℕ, zero, suc, ◌+◌, ◌-◌, ◌≤◌, ◌<◌, min, Option, none, some, ◌≡◌, refl,
  arith, ltb,
}
use compaction.Prelude.Exec.{ok, err, volatile_state}
use compaction.Config.{ClusterConfig}
use compaction.Config.Manager.{commit_config}
use compaction.State.Volatile.{set_commit_index}
use compaction.Log.Manager.Queries.{config_of}
use compaction.Log.Manager.Queries.Answers.{get_entry_lem}
use compaction.Log.Manager.Effects.{entry_at}
use compaction.Machine.{Node}
use compaction.Machine.Ready.{IsReady}
use compaction.Machine.Replication.{follow_commit, commit_configs, commit_if}

-- The same node but for its committed configuration.
pub record IsCommitting (n n' : Node) : Type 0 where
  pub ready : IsReady n'
  pub log_kept : n'.log_manager ≡ n.log_manager
  pub volatile_kept : n'.volatile_state ≡ n.volatile_state
  pub persistent_kept : n'.persistent_state ≡ n.persistent_state
  pub role_kept : n'.current_state ≡ n.current_state
  pub leader_kept : n'.current_leader ≡ n.current_leader
  pub active_kept : n'.config_manager.active_config ≡ n.config_manager.active_config

same-IsCommitting : (n : Node) → IsReady n → IsCommitting n n
same-IsCommitting n h = record {
  ready = h;
  log_kept = refl;
  volatile_kept = refl;
  persistent_kept = refl;
  role_kept = refl;
  leader_kept = refl;
  active_kept = refl;
}

IsCommitting-trans : {a b c : Node} → IsCommitting a b → IsCommitting b c → IsCommitting a c
IsCommitting-trans p q = record {
  ready = q.ready;
  log_kept = q.log_kept ∙ p.log_kept;
  volatile_kept = q.volatile_kept ∙ p.volatile_kept;
  persistent_kept = q.persistent_kept ∙ p.persistent_kept;
  role_kept = q.role_kept ∙ p.role_kept;
  leader_kept = q.leader_kept ∙ p.leader_kept;
  active_kept = q.active_kept ∙ p.active_kept;
}

commit_if_done :
    (o : Option ClusterConfig) (n : Node)
    → IsReady n
    → (commit_if o n ≡ (ok tt, (commit_if o n).1)) × IsCommitting n (commit_if o n).1
commit_if_done none n h = (refl, same-IsCommitting n h)
commit_if_done (some c) n h = (
  unfold commit_config in ground arith,
  record {
    ready = record {
      persistent = h.persistent;
      meta_open = h.meta_open;
      configured = unfold commit_config in ground arith;
      config_open = unfold commit_config in ground arith;
      managed = h.managed;
    };
    log_kept = refl;
    volatile_kept = refl;
    persistent_kept = refl;
    role_kept = refl;
    leader_kept = refl;
    active_kept = unfold commit_config in ground arith;
  },
)

commit_step :
    (k i : ℕ) (n m : Node)
    → IsReady n
    → commit_if (config_of (entry_at n.log_manager i)) n ≡ (ok tt, m)
    → commit_configs (suc k) i n ≡ commit_configs k (i + 1) m
unfolding commit_configs
commit_step k i n m h run = rw (get_entry_lem i n.log_manager h.managed) (rw run refl)

pub commit_configs_done :
    (k i : ℕ) (n : Node)
    → IsReady n
    → (n' : Node) × (commit_configs k i n ≡ (ok tt, n')) × IsCommitting n n'
commit_configs_done zero i n h = (n, unfold commit_configs in refl, same-IsCommitting n h)
commit_configs_done (suc k) i n h =
    let (run, eff) = commit_if_done (config_of (entry_at n.log_manager i)) n h in
    let m = (commit_if (config_of (entry_at n.log_manager i)) n).1 in
    let (n', run', eff') = commit_configs_done k (i + 1) m eff.ready in
    (n', commit_step k i n m h run ∙ run', IsCommitting-trans eff eff')

-- The commit index after an AppendEntries, on every branch: nothing new to commit, a failure where
-- the entries end before the commit index, and the bounded advance.
pub data IsCommitted (leader_commit last_new : ℕ) (n : Node) : Type 0 where
  nothing_new :
      leader_commit ≤ n.volatile_state.commit_index
      → follow_commit leader_commit last_new n ≡ (ok tt, n)
      → IsCommitted leader_commit last_new n
  stale :
      n.volatile_state.commit_index < leader_commit
      → last_new < n.volatile_state.commit_index
      → (follow_commit leader_commit last_new n).0 ≡ err volatile_state
      → IsCommitted leader_commit last_new n
  advanced :
      n.volatile_state.commit_index < leader_commit
      → n.volatile_state.commit_index ≤ last_new
      → (follow_commit leader_commit last_new n).0 ≡ ok tt
      → (follow_commit leader_commit last_new n).1.volatile_state.commit_index
        ≡ min leader_commit last_new
      → IsCommitted leader_commit last_new n

advance_with :
    (lc ln : ℕ) (n m : Node)
    → n.volatile_state.commit_index < lc
    → n.volatile_state.commit_index ≤ ln
    → commit_configs
        (min lc ln - n.volatile_state.commit_index)
        (n.volatile_state.commit_index + 1)
        n
      ≡ (ok tt, m)
    → m.volatile_state ≡ n.volatile_state
    → ((follow_commit lc ln n).0 ≡ ok tt)
      × ((follow_commit lc ln n).1.volatile_state.commit_index ≡ min lc ln)
unfolding follow_commit set_commit_index
advance_with lc ln n m lt le run same = ground arith

follow_commit-stale :
    (lc ln : ℕ) (n : Node)
    → n.volatile_state.commit_index < lc
    → ln < n.volatile_state.commit_index
    → (follow_commit lc ln n).0 ≡ err volatile_state
unfolding follow_commit set_commit_index commit_configs
follow_commit-stale lc ln n p q =
    let z : min lc ln - n.volatile_state.commit_index ≡ 0 = omega arith in ground (arith, z)

follow_commit-advanced :
    (lc ln : ℕ) (n : Node)
    → IsReady n
    → n.volatile_state.commit_index < lc
    → n.volatile_state.commit_index ≤ ln
    → IsCommitted lc ln n
follow_commit-advanced lc ln n h p q =
    let (m, run, eff) =
      commit_configs_done (min lc ln - n.volatile_state.commit_index)
        (n.volatile_state.commit_index + 1) n h in
    let (fine, there) = advance_with lc ln n m p q run eff.volatile_kept in advanced p q fine there

-- On a node whose collaborators are initialized over open storages, a leader's commit index that is
-- no higher changes nothing; a higher one moves the commit index to the smaller of it and the last
-- new index, if that last new index is not below the commit index; and otherwise the call throws.
pub follow_commit-IsCommitted :
    (leader_commit last_new : ℕ) (n : Node) → IsReady n → IsCommitted leader_commit last_new n
follow_commit-IsCommitted lc ln n h = elim (Bool-cases (ltb n.volatile_state.commit_index lc)) [
  | inr low ↦ nothing_new (ground arith) (unfold follow_commit in ground arith)
  | inl higher ↦ elim (Bool-cases (ltb ln n.volatile_state.commit_index)) [
    | inl behind ↦
        stale (ground arith) (ground arith)
          (follow_commit-stale lc ln n (ground arith) (ground arith))
    | inr reached ↦ follow_commit-advanced lc ln n h (ground arith) (ground arith)
  ]
]
