-- ===== src/State/Volatile.antt =====
-- packages/raft-core/src/state/VolatileState.ts: how far the log is committed and applied.
pub mod Order
use compaction.Prelude.{ℕ, ◌+◌, ◌-◌, Option, none, some, Bool, not, ltb, leb, if◌then◌else◌}
use compaction.Prelude.Exec.{Exec, ok, err, volatile_state, throw_if, gets, modify, ◌>>=◌, ◌>>◌}

pub record VolatileState : Type 0 where
  pub commit_index : ℕ
  pub last_applied : ℕ

abbrev pub new : VolatileState
new = record { commit_index = 0; last_applied = 0 }

-- `validateIndex` refuses what is no non-negative integer; every ℕ passes it.
unfoldable pub set_commit_index : ℕ → Exec VolatileState Unit
set_commit_index index = do
  lower ← gets (λ s. ltb index s.commit_index)
  throw_if lower volatile_state
  modify (λ s. record s { commit_index = index })

unfoldable pub advance_commit_index : Exec VolatileState Unit
advance_commit_index = modify (λ s. record s { commit_index = s.commit_index + 1 })

unfoldable pub set_last_applied : ℕ → Exec VolatileState Unit
set_last_applied index = do
  lower ← gets (λ s. ltb index s.last_applied)
  throw_if lower volatile_state
  beyond ← gets (λ s. ltb s.commit_index index)
  throw_if beyond volatile_state
  modify (λ s. record s { last_applied = index })

unfoldable pub advance_last_applied : Exec VolatileState ℕ
advance_last_applied = do
  caught_up ← gets (λ s. leb s.commit_index s.last_applied)
  throw_if caught_up volatile_state
  modify (λ s. record s { last_applied = s.last_applied + 1 })
  gets (λ s. s.last_applied)

unfoldable pub needs_application : VolatileState → Bool
needs_application s = ltb s.last_applied s.commit_index

unfoldable pub get_next_index_to_apply : VolatileState → Option ℕ
unfolding needs_application
get_next_index_to_apply s = if not (needs_application s) then none else some (s.last_applied + 1)

-- The difference is not negative while `IsOrdered` holds, so the truncated `-` is exact.
unfoldable pub get_pending_applications_count : VolatileState → ℕ
get_pending_applications_count s = s.commit_index - s.last_applied

unfoldable pub reset : Exec VolatileState Unit
reset = modify (λ s. new)

unfoldable pub restore_from_snapshot : VolatileState → Exec VolatileState Unit
restore_from_snapshot snapshot = do
  lower ← gets (λ s. ltb snapshot.commit_index s.commit_index)
  throw_if lower volatile_state
  throw_if (ltb snapshot.commit_index snapshot.last_applied) volatile_state
  modify
      (λ s. record { commit_index = snapshot.commit_index; last_applied = snapshot.last_applied })
