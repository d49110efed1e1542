-- ===== src/Machine/Replication/Follower.antt =====
-- `handleAppendEntries` of StateMachine.ts as a whole, on a request that it accepts.
use compaction.Machine.Replication.Takeover.{take_over_done}
use compaction.Prelude.{
  ℕ, ◌+◌, ◌-◌, ◌≤◌, min, max, some, Bool, true, ◌≡◌, ◌∙◌, ap, arith, ◌==◌, if◌then◌else◌, length,
  ◌⊎◌, subst, sym,
}
use compaction.Prelude.Exec.{ok}
use compaction.State.Persistent.{PersistentState, get_current_term}
use compaction.State.Volatile.{VolatileState, set_commit_index}
use compaction.Storage.Log.Invariant.{Contiguous}
use compaction.Log.Manager.{LogManager, validate_all}
use compaction.Log.Manager.Queries.{matches_prev_log}
use compaction.Log.Manager.Queries.Answers.{is_term, matches_prev_log_lem, known_term}
use compaction.Log.Manager.Reconcile.Matching.{IsReconciled}
use compaction.Machine.{Node, AppendEntriesRequest, AppendEntriesResponse, follower}
use compaction.Machine.Roles.{become_follower}
use compaction.Machine.Ready.{IsReady, become_follower_done}
use compaction.Machine.Replication.{
  follow_commit, commit_configs, take_over, accept_entries, handle_append_entries, rejection,
}
use compaction.Machine.Replication.Commit.{IsCommitting, commit_configs_done}

follow_with :
    (lc ln : ℕ) (n m : Node)
    → (lc ≤ n.volatile_state.commit_index) ⊎ (n.volatile_state.commit_index ≤ ln)
    → commit_configs
        (min lc ln - n.volatile_state.commit_index)
        (n.volatile_state.commit_index + 1)
        n
      ≡ (ok tt, m)
    → IsCommitting n m
    → ((follow_commit lc ln n).0 ≡ ok tt)
      × ((follow_commit lc ln n).1.volatile_state.commit_index
          ≡ max n.volatile_state.commit_index (min lc ln))
      × ((follow_commit lc ln n).1.log_manager ≡ n.log_manager)
      × ((follow_commit lc ln n).1.persistent_state ≡ n.persistent_state)
      × ((follow_commit lc ln n).1.current_state ≡ n.current_state)
      × ((follow_commit lc ln n).1.current_leader ≡ n.current_leader)
unfolding follow_commit set_commit_index
follow_with lc ln n m bound run eff = ground arith

-- A successful answer, with the index up to which the follower's log is the leader's.
abbrev pub acceptance : ℕ → AppendEntriesRequest → AppendEntriesResponse
acceptance t r = record (rejection t) {
  success = true;
  match_index = some (r.prev_log_index + length r.entries);
}

abbrev last_new : AppendEntriesRequest → ℕ
last_new r = r.prev_log_index + length r.entries

accept_with :
    (r : AppendEntriesRequest) (n m : Node)
    → IsReady m
    → take_over r.prev_log_index r.entries n ≡ (ok tt, m)
    → (follow_commit r.leader_commit (last_new r) m).0 ≡ ok tt
    → (follow_commit r.leader_commit (last_new r) m).1.persistent_state ≡ m.persistent_state
    → accept_entries r n ≡ (
      ok (acceptance m.persistent_state.current_term r),
      (follow_commit r.leader_commit (last_new r) m).1,
    )
unfolding accept_entries get_current_term
accept_with r n m h run done kept = rw run (ground arith)

-- What an accepted AppendEntries leaves: the log agrees with the leader's entries, the commit index
-- has followed as far as they go, and the node follows the sender in its term.
pub record IsAccepted (r : AppendEntriesRequest) (n n' : Node) : Type 0 where
  pub reconciled : IsReconciled r.prev_log_index r.entries n.log_manager n'.log_manager
  pub committed :
      n'.volatile_state.commit_index
      ≡ max n.volatile_state.commit_index (min r.leader_commit (last_new r))
  pub term_adopted : n'.persistent_state.current_term ≡ r.term
  pub role : n'.current_state ≡ follower
  pub leader_known : n'.current_leader ≡ some r.leader_id

-- The entries of a request follow its previous index, which the log reaches.
pub record IsApplicable (r : AppendEntriesRequest) (n : Node) : Type 0 where
  pub contiguous : Contiguous (r.prev_log_index + 1) r.entries
  pub valid : validate_all r.entries ≡ ok tt
  pub reached : n.log_manager.snapshot_index ≤ r.prev_log_index
  pub in_log : r.prev_log_index ≤ n.log_manager.last_index
  pub not_behind :
      (r.leader_commit ≤ n.volatile_state.commit_index)
      ⊎ (n.volatile_state.commit_index ≤ r.prev_log_index + length r.entries)

accept_done :
    (r : AppendEntriesRequest) (n : Node)
    → IsReady n
    → IsApplicable r n
    → n.persistent_state.current_term ≡ r.term
    → n.current_state ≡ follower
    → n.current_leader ≡ some r.leader_id
    → (n' : Node) × (accept_entries r n ≡ (ok (acceptance r.term r), n')) × IsAccepted r n n'
accept_done r n h a t f l =
    let (m, run, eff) =
      take_over_done r.prev_log_index r.entries n h a.contiguous a.valid a.reached a.in_log in
    let (m', crun, ceff) =
      commit_configs_done (min r.leader_commit (last_new r) - m.volatile_state.commit_index)
        (m.volatile_state.commit_index + 1) m eff.ready in
    let bound : (r.leader_commit ≤ m.volatile_state.commit_index)
        ⊎ (m.volatile_state.commit_index ≤ last_new r) =
      subst
        (λ (v : VolatileState). (r.leader_commit ≤ v.commit_index) ⊎ (v.commit_index ≤ last_new r))
        (sym eff.volatile_kept) a.not_behind in
    let (done, commit, log_kept, kept, role, leader) =
      follow_with r.leader_commit (last_new r) m m' bound crun ceff in
    let n' = (follow_commit r.leader_commit (last_new r) m).1 in
    (
      n',
      accept_with r n m eff.ready run done kept
          ∙ ap (λ (p : PersistentState). (ok (acceptance p.current_term r), n')) eff.persistent_kept
          ∙ ap (λ (u : ℕ). (ok (acceptance u r), n')) t,
      record {
        reconciled =
            subst (IsReconciled r.prev_log_index r.entries n.log_manager) (sym log_kept)
              eff.reconciled;
        committed =
            commit
            ∙ ap (λ (v : VolatileState). max v.commit_index (min r.leader_commit (last_new r)))
                eff.volatile_kept;
        term_adopted =
            ap (λ (p : PersistentState). p.current_term) (kept ∙ eff.persistent_kept) ∙ t;
        role = role ∙ eff.role_kept ∙ f;
        leader_known = leader ∙ eff.leader_kept ∙ l;
      },
    )

-- What the leader's previous entry has to match.
abbrev pub matches : AppendEntriesRequest → Node → Bool
matches r n =
    if r.prev_log_index == 0
    then r.prev_log_term == 0
    else is_term (known_term n.log_manager r.prev_log_index) r.prev_log_term

handle_with :
    (now : ℕ) (r : AppendEntriesRequest) (n m : Node)
    → IsReady n
    → n.persistent_state.current_term ≤ r.term
    → become_follower r.term (some r.leader_id) (record n { last_leader_contact_at = now })
      ≡ (ok tt, m)
    → matches_prev_log r.prev_log_index r.prev_log_term m.log_manager ≡ (ok true, m.log_manager)
    → handle_append_entries now r n ≡ accept_entries r m
unfolding handle_append_entries get_current_term
handle_with now r n m h le run found = ground arith

now-IsReady : (now : ℕ) (n : Node) → IsReady n → IsReady (record n { last_leader_contact_at = now })
now-IsReady now n h = record {
  persistent = h.persistent;
  meta_open = h.meta_open;
  configured = h.configured;
  config_open = h.config_open;
  managed = h.managed;
}

moved-IsApplicable :
    (r : AppendEntriesRequest) (n m : Node)
    → m.log_manager ≡ n.log_manager
    → m.volatile_state ≡ n.volatile_state
    → IsApplicable r n
    → IsApplicable r m
moved-IsApplicable r n m l v a = record {
  contiguous = a.contiguous;
  valid = a.valid;
  reached = subst (λ (x : LogManager). x.snapshot_index ≤ r.prev_log_index) (sym l) a.reached;
  in_log = subst (λ (x : LogManager). r.prev_log_index ≤ x.last_index) (sym l) a.in_log;
  not_behind =
      subst
        (λ (x : VolatileState). (r.leader_commit ≤ x.commit_index) ⊎ (x.commit_index ≤ last_new r))
        (sym v) a.not_behind;
}

prev_matches :
    (r : AppendEntriesRequest) (n m : Node)
    → IsReady m
    → m.log_manager ≡ n.log_manager
    → matches r n ≡ true
    → matches_prev_log r.prev_log_index r.prev_log_term m.log_manager ≡ (ok true, m.log_manager)
prev_matches r n m h l found =
    matches_prev_log_lem r.prev_log_index r.prev_log_term m.log_manager h.managed
    ∙ ap (λ b. (ok b, m.log_manager))
        (ap
            (λ (x : LogManager).
              if r.prev_log_index == 0
              then r.prev_log_term == 0
              else is_term (known_term x r.prev_log_index) r.prev_log_term)
            l
          ∙ found)

-- On a node whose collaborators are initialized over open storages, a request of the node's term or
-- a newer one, whose previous index the log reaches and has not compacted past, with the term that
-- the log knows for it, or 0 for index 0, whose valid entries stand at the next indices, and whose
-- end is not below the commit index if the leader's commit index is higher, is answered with
-- success: the log then agrees with the request, the commit index is the larger of the old one and
-- the leader's bounded by the last new index, and the node is a follower of the sender in the
-- request's term.
pub append_entries-IsAccepted :
    (now : ℕ) (r : AppendEntriesRequest) (n : Node)
    → IsReady n
    → IsApplicable r n
    → n.persistent_state.current_term ≤ r.term
    → matches r n ≡ true
    → (n' : Node) × (handle_append_entries now r n ≡ (ok (acceptance r.term r), n'))
      × IsAccepted r n n'
append_entries-IsAccepted now r n h a le found =
    let n1 : Node = record n { last_leader_contact_at = now } in
    let (run, eff) = become_follower_done r.term (some r.leader_id) n1 (now-IsReady now n h) in
    let m = (become_follower r.term (some r.leader_id) n1).1 in
    let same_log : m.log_manager ≡ n.log_manager = eff.log_kept in
    let same_commit : m.volatile_state ≡ n.volatile_state = eff.volatile_kept in
    let t : m.persistent_state.current_term ≡ r.term = omega (arith, eff.term_adopted) in
    let (n', run', acc) =
      accept_done r m eff.ready (moved-IsApplicable r n m same_log same_commit a) t eff.role
        eff.leader_known in
    (
      n',
      handle_with now r n m h le run (prev_matches r n m eff.ready same_log found) ∙ run',
      record {
        reconciled =
            subst (λ l. IsReconciled r.prev_log_index r.entries l n'.log_manager) same_log
              acc.reconciled;
        committed =
            acc.committed
            ∙ ap (λ (v : VolatileState). max v.commit_index (min r.leader_commit (last_new r)))
                same_commit;
        term_adopted = acc.term_adopted;
        role = acc.role;
        leader_known = acc.leader_known;
      },
    )
