-- ===== src/Storage/Log.antt =====
-- packages/raft-core/src/storage/inMemory/InMemoryLogStorage.ts: the retained entries and the
-- snapshot boundary. `Map<number, LogEntry>` is a function: the code never iterates over it.
pub mod Invariant
pub mod Journal
use compaction.Prelude.{
  ℕ, zero, suc, ◌+◌, ◌-◌, Option, none, some, Bool, true, false, not, ◌||◌, List, [], ◌∷◌, ltb, leb,
  ◌==◌, if◌then◌else◌, last, is_some,
}
use compaction.Prelude.Exec.{
  Exec, Result, ok, err, storage, throw_if, gets, modify, return, ◌>>=◌, ◌>>◌,
}
use compaction.Log.{LogEntry}

abbrev pub Entries : Type 0
Entries = ℕ → Option LogEntry

pub record LogStorage : Type 0 where
  pub entries : Entries
  pub snapshot_index : ℕ
  pub snapshot_term : ℕ
  pub last_index : ℕ
  pub last_term : ℕ
  pub is_open_flag : Bool

pub record LogStorageMeta : Type 0 where
  pub snapshot_index : ℕ
  pub snapshot_term : ℕ
  pub last_index : ℕ
  pub last_term : ℕ

abbrev pub empty : LogStorage
empty = record {
  entries = λ i. none;
  snapshot_index = 0;
  snapshot_term = 0;
  last_index = 0;
  last_term = 0;
  is_open_flag = false;
}

-- `map.set(k, e)`, `map.delete(k)`
abbrev pub put : Entries → ℕ → LogEntry → Entries
put m k e i = if i == k then some e else m i

abbrev pub delete : Entries → ℕ → Entries
delete m k i = if i == k then none else m i

unfoldable pub ensure_open : Exec LogStorage Unit
ensure_open s = throw_if (not s.is_open_flag) storage s

unfoldable pub open_storage : Exec LogStorage Unit
open_storage = do
  flag ← gets (λ s. s.is_open_flag)
  throw_if flag storage
  modify (λ s. record s { is_open_flag = true })

unfoldable pub close : Exec LogStorage Unit
unfolding ensure_open
close = do ensure_open; modify (λ s. record s { is_open_flag = false })

abbrev pub meta : LogStorage → LogStorageMeta
meta s = record {
  snapshot_index = s.snapshot_index;
  snapshot_term = s.snapshot_term;
  last_index = s.last_index;
  last_term = s.last_term;
}

unfoldable pub read_meta : Exec LogStorage LogStorageMeta
unfolding ensure_open
read_meta = do ensure_open; gets meta

-- the loop `for (const entry of entries) this.entries.set(entry.index, entry)`
unfoldable pub put_all : Entries → List LogEntry → Entries
put_all m [] = m
put_all m (e ∷ es) = put_all (put m e.index e) es

abbrev pub append_open : List LogEntry → LogStorage → LogStorage
append_open [] s = s
append_open (e ∷ es) s = record s {
  entries = put_all s.entries (e ∷ es);
  last_index = (last e es).index;
  last_term = (last e es).term;
}

unfoldable pub append : List LogEntry → Exec LogStorage Unit
unfolding ensure_open
append es = do ensure_open; modify (append_open es)

unfoldable pub get_entry : ℕ → Exec LogStorage (Option LogEntry)
unfolding ensure_open
get_entry i = do
  ensure_open
  gets (λ s. if leb i s.snapshot_index || ltb s.last_index i then none else s.entries i)

-- The loop of `getEntries` with `n` rounds left, from index `i`.
abbrev collected : Option LogEntry → Bool → Result (List LogEntry) → Result (List LogEntry)
collected (some e) false (ok es) = ok (e ∷ es)
collected (some e) false (err x) = err x
collected (some e) true r = err storage
collected none b r = err storage

pub collect : ℕ → ℕ → LogStorage → Result (List LogEntry)
collect zero i s = ok []
collect (suc n) i s =
    let rest = collect n (i + 1) s in collected (s.entries i) (leb i s.snapshot_index) rest

unfoldable pub get_entries : ℕ → ℕ → Exec LogStorage (List LogEntry)
unfolding ensure_open
get_entries from to = do ensure_open; λ s. (collect (to + 1 - from) from s, s)

-- The loop `for (let i = from; ...; i++) this.entries.delete(i)` of `n` rounds.
pub delete_from : ℕ → ℕ → Entries → Entries
delete_from zero i m = m
delete_from (suc n) i m = delete_from n (i + 1) (delete m i)

abbrev pub term_or : Option LogEntry → ℕ → ℕ
term_or none d = d
term_or (some e) d = e.term

-- `index - 1` may be -1 in the source; a number at most `snapshotIndex` then too.
abbrev pub truncate_open : ℕ → LogStorage → LogStorage
truncate_open index s =
    let m = delete_from (s.last_index + 1 - index) index s.entries in
    if leb index (s.snapshot_index + 1)
    then record s { entries = m; last_index = s.snapshot_index; last_term = s.snapshot_term }
    else record s { entries = m; last_index = index - 1; last_term = term_or (m (index - 1)) 0 }

unfoldable pub truncate_from : ℕ → Exec LogStorage Unit
unfolding ensure_open
truncate_from index = do ensure_open; modify (truncate_open index)

abbrev pub compact_open : ℕ → ℕ → LogStorage → LogStorage
compact_open index t s =
    let m = delete_from (index - s.snapshot_index) (s.snapshot_index + 1) s.entries in
    if leb s.last_index index
    then record s {
      entries = m;
      snapshot_index = index;
      snapshot_term = t;
      last_index = index;
      last_term = t;
    }
    else record s { entries = m; snapshot_index = index; snapshot_term = t }

unfoldable pub compact : ℕ → ℕ → Exec LogStorage Unit
unfolding ensure_open
compact index t = do ensure_open; modify (compact_open index t)

unfoldable pub reset : ℕ → ℕ → Exec LogStorage Unit
unfolding ensure_open
reset index t = do
  ensure_open
  modify (λ s. record s {
    entries = λ i. none;
    snapshot_index = index;
    snapshot_term = t;
    last_index = index;
    last_term = t;
  })
