-- ===== src/Machine/Leading/Batches.antt =====
-- What `boundAppendEntriesBySize` of StateMachine.ts sends of the entries that a peer lacks.
use compaction.Prelude.{ℕ, ◌+◌, ◌≤◌, ◌<◌, ◌≡◌, ◌⊎◌, List, [], ◌∷◌, ◌++◌, length}
use compaction.Log.{LogEntry}
use compaction.Machine.Leading.{max_append_entries_batch_bytes}

abbrev pub total : (LogEntry → ℕ) → List LogEntry → ℕ
total bytes [] = 0
total bytes (e ∷ es) = bytes e + total bytes es

-- What was left out begins with an entry that would have gone past the bound.
abbrev pub StopsFor : (LogEntry → ℕ) → ℕ → List LogEntry → Type 0
StopsFor bytes used [] = Unit
StopsFor bytes used (e ∷ es) = max_append_entries_batch_bytes < used + bytes e

pub record IsBatch (bytes : LogEntry → ℕ) (es sent left : List LogEntry) : Type 0 where
  pub prefix : sent ++ left ≡ es
  pub bounded : (length sent ≤ 1) ⊎ (total bytes sent ≤ max_append_entries_batch_bytes)
  pub greedy : StopsFor bytes (total bytes sent) left
