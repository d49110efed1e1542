-- ===== src/Machine/Replication/Takeover.antt =====
-- The entries of a request at a follower, as `handleAppendEntries` of StateMachine.ts takes them
-- over.
use compaction.Prelude.{
  ℕ, ◌+◌, ◌≤◌, Option, none, some, ◌≡◌, ◌∙◌, refl, arith, List, [], ◌∷◌, subst, sym,
}
use compaction.Prelude.Exec.{ok}
use compaction.Config.{ClusterConfig}
use compaction.Config.Manager.{apply_config_entry}
use compaction.Log.{LogEntry}
use compaction.Storage.Log.Invariant.{Contiguous}
use compaction.Log.Manager.{LogManager, validate_all}
use compaction.Log.Manager.Queries.{config_of}
use compaction.Log.Manager.Reconcile.{append_entries_from}
use compaction.Log.Manager.Reconcile.Matching.{IsReconciled, append_entries_from-IsReconciled}
use compaction.Machine.{Node}
use compaction.Machine.Ready.{IsReady}
use compaction.Machine.Replication.{apply_config, apply_configs, take_over}

-- The node but for its configuration.
pub record IsSettled (n n' : Node) : Type 0 where
  pub ready : IsReady n'
  pub log_kept : n'.log_manager ≡ n.log_manager
  pub volatile_kept : n'.volatile_state ≡ n.volatile_state
  pub persistent_kept : n'.persistent_state ≡ n.persistent_state
  pub role_kept : n'.current_state ≡ n.current_state
  pub leader_kept : n'.current_leader ≡ n.current_leader

same-IsSettled : (n : Node) → IsReady n → IsSettled n n
same-IsSettled n h = record {
  ready = h;
  log_kept = refl;
  volatile_kept = refl;
  persistent_kept = refl;
  role_kept = refl;
  leader_kept = refl;
}

IsSettled-trans : {a b c : Node} → IsSettled a b → IsSettled b c → IsSettled a c
IsSettled-trans p q = record {
  ready = q.ready;
  log_kept = q.log_kept ∙ p.log_kept;
  volatile_kept = q.volatile_kept ∙ p.volatile_kept;
  persistent_kept = q.persistent_kept ∙ p.persistent_kept;
  role_kept = q.role_kept ∙ p.role_kept;
  leader_kept = q.leader_kept ∙ p.leader_kept;
}

apply_config_done :
    (o : Option ClusterConfig) (n : Node)
    → IsReady n
    → (apply_config o n ≡ (ok tt, (apply_config o n).1)) × IsSettled n (apply_config o n).1
apply_config_done none n h = (refl, same-IsSettled n h)
apply_config_done (some c) n h = (
  unfold apply_config_entry in ground arith,
  record {
    ready = record {
      persistent = h.persistent;
      meta_open = h.meta_open;
      configured = unfold apply_config_entry in ground arith;
      config_open = unfold apply_config_entry in ground arith;
      managed = h.managed;
    };
    log_kept = refl;
    volatile_kept = refl;
    persistent_kept = refl;
    role_kept = refl;
    leader_kept = refl;
  },
)

apply_step :
    (e : LogEntry) (es : List LogEntry) (n m : Node)
    → apply_config (config_of (some e)) n ≡ (ok tt, m)
    → apply_configs (e ∷ es) n ≡ apply_configs es m
unfolding apply_configs
apply_step e es n m run = rw run refl

apply_configs_done :
    (es : List LogEntry) (n : Node)
    → IsReady n
    → (n' : Node) × (apply_configs es n ≡ (ok tt, n')) × IsSettled n n'
apply_configs_done [] n h = (n, unfold apply_configs in refl, same-IsSettled n h)
apply_configs_done (e ∷ es) n h =
    let (run, eff) = apply_config_done (config_of (some e)) n h in
    let m = (apply_config (config_of (some e)) n).1 in
    let (n', run', eff') = apply_configs_done es m eff.ready in
    (n', apply_step e es n m run ∙ run', IsSettled-trans eff eff')

-- The entries are taken over, and nothing but the log and the configuration changes.
pub record IsTakenOver (prev : ℕ) (es : List LogEntry) (n n' : Node) : Type 0 where
  pub ready : IsReady n'
  pub reconciled : IsReconciled prev es n.log_manager n'.log_manager
  pub volatile_kept : n'.volatile_state ≡ n.volatile_state
  pub persistent_kept : n'.persistent_state ≡ n.persistent_state
  pub role_kept : n'.current_state ≡ n.current_state
  pub leader_kept : n'.current_leader ≡ n.current_leader

take_over_step :
    (prev : ℕ) (e : LogEntry) (es : List LogEntry) (n : Node) (l : LogManager)
    → append_entries_from prev (e ∷ es) n.log_manager ≡ (ok l.last_index, l)
    → take_over prev (e ∷ es) n ≡ apply_configs (e ∷ es) (record n { log_manager = l })
take_over_step prev e es n l run = rw run refl

pub take_over_done :
    (prev : ℕ) (es : List LogEntry) (n : Node)
    → IsReady n
    → Contiguous (prev + 1) es
    → validate_all es ≡ ok tt
    → n.log_manager.snapshot_index ≤ prev
    → prev ≤ n.log_manager.last_index
    → (n' : Node) × (take_over prev es n ≡ (ok tt, n')) × IsTakenOver prev es n n'
take_over_done prev [] n h c v lo hi = (
  n,
  refl,
  record {
    ready = h;
    reconciled = record {
      managed = h.managed;
      covers = omega arith;
      agrees = λ j e g. cc;
      prefix = λ i p. refl;
      unharmed = λ u i p. refl;
    };
    volatile_kept = refl;
    persistent_kept = refl;
    role_kept = refl;
    leader_kept = refl;
  },
)
take_over_done prev (e ∷ es) n h c v lo hi =
    let (l, run, eff) =
      append_entries_from-IsReconciled prev (e ∷ es) n.log_manager h.managed c v lo hi in
    let m : Node = record n { log_manager = l } in
    let m_ready : IsReady m = record {
      persistent = h.persistent;
      meta_open = h.meta_open;
      configured = h.configured;
      config_open = h.config_open;
      managed = eff.managed;
    } in
    let (n', run', eff') = apply_configs_done (e ∷ es) m m_ready in
    (
      n',
      take_over_step prev e es n l run ∙ run',
      record {
        ready = eff'.ready;
        reconciled = subst (IsReconciled prev (e ∷ es) n.log_manager) (sym eff'.log_kept) eff;
        volatile_kept = eff'.volatile_kept;
        persistent_kept = eff'.persistent_kept;
        role_kept = eff'.role_kept;
        leader_kept = eff'.leader_kept;
      },
    )
