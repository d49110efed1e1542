-- ===== src/State/Volatile/Order.antt =====
-- packages/raft-core/src/state/VolatileState.ts: the order of the commit index and the applied index.
use compaction.Prelude.{ℕ, zero, suc, ◌+◌, ◌≤◌, true, ◌≡◌, ◌⊎◌, arith}
use compaction.Prelude.Exec.{ok}
use compaction.State.Volatile.{
  VolatileState, set_commit_index, advance_commit_index, set_last_applied, advance_last_applied,
  needs_application, get_pending_applications_count, reset, restore_from_snapshot,
}

pub data Op : Type 0 where
  commit apply_to : ℕ → Op
  commit_next apply_next restart : Op
  restore : VolatileState → Op

abbrev pub apply : VolatileState → Op → VolatileState
apply s (commit i) = (set_commit_index i s).1
apply s (apply_to i) = (set_last_applied i s).1
apply s commit_next = (advance_commit_index s).1
apply s apply_next = (advance_last_applied s).1
apply s restart = (reset s).1
apply s (restore t) = (restore_from_snapshot t s).1

pub record IsOrdered (s : VolatileState) : Type 0 where
  pub applied_committed : s.last_applied ≤ s.commit_index

-- Every operation of the volatile state, whether it succeeds or throws, keeps the applied index at
-- most the commit index.
pub apply-IsOrdered : (s : VolatileState) (o : Op) → IsOrdered s → IsOrdered (apply s o)
unfolding set_commit_index advance_commit_index set_last_applied advance_last_applied reset
    restore_from_snapshot
apply-IsOrdered s (commit i) h = ground arith
apply-IsOrdered s _ h = ground arith

-- An operation of the volatile state lowers the commit index only if it is the reset.
pub commit_grows :
    (s : VolatileState) (o : Op) → (o ≡ restart) ⊎ (s.commit_index ≤ (apply s o).commit_index)
unfolding set_commit_index advance_commit_index set_last_applied advance_last_applied reset
    restore_from_snapshot
commit_grows s (commit i) = ground arith
commit_grows s _ = ground arith

-- The applied index, advanced a number of times.
abbrev pub apply_all : ℕ → VolatileState → VolatileState
apply_all zero s = s
apply_all (suc n) s = apply_all n (advance_last_applied s).1

step_next :
    (s : VolatileState)
    → needs_application s ≡ true
    → ((advance_last_applied s).0 ≡ ok (s.last_applied + 1))
      × ((advance_last_applied s).1 ≡ record s { last_applied = s.last_applied + 1 })
unfolding advance_last_applied needs_application
step_next s h = ground arith

-- From an applied index that is at most the commit index, advancing it as often as the pending
-- count says brings it exactly to the commit index.
pub apply_all-pending :
    (n : ℕ) (s : VolatileState)
    → get_pending_applications_count s ≡ n
    → IsOrdered s
    → apply_all n s ≡ record s { last_applied = s.commit_index }
unfolding get_pending_applications_count
apply_all-pending zero s e h = ground arith
apply_all-pending (suc n) s e h =
    let next = step_next s (unfold needs_application in ground arith) in
    let s' : VolatileState = record s { last_applied = s.last_applied + 1 } in
    ground (arith, next.1, apply_all-pending n s' (ground arith) (ground arith))
