-- ===== src/Lock.antt =====
-- packages/raft-core/src/lock/AsyncLock.ts: a mutual exclusion lock with a queue.
pub mod Fairness
use compaction.Prelude.{
  if◌then◌else◌, Option, none, some, Bool, true, false, not, List, [], ◌∷◌, ◌++◌, length, ℕ,
}
use compaction.Prelude.Exec.{
  Exec, Result, ok, err, invalid, throw, return, gets, modify, resume, ◌>>=◌, ◌>>◌, throw_if,
}

-- `queue` has the waiting calls of `acquire`, which the code keeps as their `resolve` functions.
pub record AsyncLock (W : Type 0) : Type 0 where
  pub locked : Bool
  pub queue : List W

module _ {W : Type 0} where
  abbrev pub new : AsyncLock W
  new = record { locked = false; queue = [] }

  -- Whether the lock is given at once; else the call waits in the queue.
  unfoldable pub acquire : W → Exec (AsyncLock W) Bool
  acquire w = do
    taken ← gets (λ l. l.locked)
    if not taken
        then (do modify (λ l. record l { locked = true }); return true)
        else (do modify (λ l. record l { queue = l.queue ++ w ∷ [] }); return false)

  abbrev wake : List W → Exec (AsyncLock W) (Option W)
  wake [] = do modify (λ l. record l { locked = false }); return none
  wake (w ∷ ws) = do modify (λ l. record l { queue = ws }); return (some w)

  -- The call that is resumed, if one waits.
  unfoldable pub release : Exec (AsyncLock W) (Option W)
  release = do
    taken ← gets (λ l. l.locked)
    throw_if (not taken) invalid
    waiting ← gets (λ l. l.queue)
    wake waiting

  abbrev pub is_locked : AsyncLock W → Bool
  is_locked l = l.locked

  abbrev pub get_queue_length : AsyncLock W → ℕ
  get_queue_length l = length l.queue

  abbrev pub finish :
      {S A : Type 0} → Result A → S → Result (Option W) × AsyncLock W → Result A × (S × AsyncLock W)
  finish r s (ok w, l) = (r, (s, l))
  finish r s (err e, l) = (err e, (s, l))

  abbrev pub finally_release :
      {S A : Type 0} → AsyncLock W → Result A × S → Result A × (S × AsyncLock W)
  finally_release l (r, s) = finish r s (release l)

  -- `runExclusive` from the moment that `acquire` is done; the callback works on a state of its own.
  abbrev pub run_exclusive : {S A : Type 0} → Exec S A → Exec (S × AsyncLock W) A
  run_exclusive callback (s, l) = finally_release l (callback s)
