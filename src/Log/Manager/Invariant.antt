-- ===== src/Log/Manager/Invariant.antt =====
-- What LogManager.ts keeps between two calls, and which operations keep it.
use compaction.Prelude.{
  inr, sym, inl, subst, ◌⊎◌, ℕ, ◌+◌, ◌≤◌, ◌<◌, true, ◌≡◌, refl, arith, List, [], ◌∷◌, last,
}
use compaction.Log.{LogEntry}
use compaction.Storage.Log
use compaction.Storage.Log.{LogStorage, meta}
use compaction.Storage.Log.Invariant.{
  IsLog, append-IsLog, truncate-IsLog, compact-IsLog, reset-IsLog, Contiguous,
}
use compaction.Log.Manager.{
  LogManager, new, initialize, append_entry, append_entries, delete_entries_from, clear,
  discard_entries_up_to, reset_to_snapshot, contiguous_from,
}

-- The storage is open and well formed, and the cached metadata is the storage's.
pub record IsManaged (l : LogManager) : Type 0 where
  pub log : IsLog l.log_storage
  pub is_open : l.log_storage.is_open_flag ≡ true
  pub ready : l.initialized ≡ true
  pub last_index : l.last_index ≡ l.log_storage.last_index
  pub last_term : l.last_term ≡ l.log_storage.last_term
  pub snapshot_index : l.snapshot_index ≡ l.log_storage.snapshot_index
  pub snapshot_term : l.snapshot_term ≡ l.log_storage.snapshot_term

pub initialize-IsManaged :
    (s : LogStorage) → IsLog s → s.is_open_flag ≡ true → IsManaged (initialize (new s)).1
unfolding initialize
initialize-IsManaged s h o = record {
  log = ground (arith, h);
  is_open = ground arith;
  ready = ground arith;
  last_index = ground arith;
  last_term = ground arith;
  snapshot_index = ground arith;
  snapshot_term = ground arith;
}

-- The manager after the storage took new entries, and after it lost its tail.
abbrev pub appended : LogEntry → List LogEntry → LogManager → LogManager
appended e es l = record l {
  log_storage = (Log.append (e ∷ es) l.log_storage).1;
  last_index = (last e es).index;
  last_term = (last e es).term;
}

abbrev pub synced : LogStorage → LogManager → LogManager
synced s l = record l {
  log_storage = s;
  last_index = s.last_index;
  last_term = s.last_term;
  snapshot_index = s.snapshot_index;
  snapshot_term = s.snapshot_term;
}

synced-IsManaged :
    (s : LogStorage) (l : LogManager)
    → IsManaged l
    → IsLog s
    → s.is_open_flag ≡ true
    → IsManaged (synced s l)
synced-IsManaged s l h g o = record {
  log = g;
  is_open = o;
  ready = h.ready;
  last_index = refl;
  last_term = refl;
  snapshot_index = refl;
  snapshot_term = refl;
}

contiguous_from_iff : (k : ℕ) (es : List LogEntry) → contiguous_from k es ≡ true → Contiguous k es
unfolding contiguous_from
contiguous_from_iff k [] h = tt
contiguous_from_iff k (e ∷ es) h = (ground arith, contiguous_from_iff (k + 1) es (ground arith))

append_entry_outcome :
    (e : LogEntry) (l : LogManager)
    → IsManaged l
    → ((append_entry e l).1 ≡ l)
      ⊎ (Contiguous (l.last_index + 1) (e ∷ [])
          × ((append_entry e l).1 ≡ synced (Log.append (e ∷ []) l.log_storage).1 l))
unfolding append_entry
append_entry_outcome e l h = ground arith

append_entries_outcome :
    (es : List LogEntry) (l : LogManager)
    → IsManaged l
    → ((append_entries es l).1 ≡ l)
      ⊎ (Contiguous (l.last_index + 1) es
          × ((append_entries es l).1 ≡ synced (Log.append es l.log_storage).1 l))
unfolding append_entries
append_entries_outcome [] l h = ground arith
append_entries_outcome (e ∷ es) l h =
    ground (arith, contiguous_from_iff (l.last_index + 1) (e ∷ es))

delete_outcome :
    (i : ℕ) (l : LogManager)
    → IsManaged l
    → ((delete_entries_from i l).1 ≡ l)
      ⊎ ((l.snapshot_index < i)
          × (i ≤ l.last_index)
          × ((delete_entries_from i l).1 ≡ synced (Log.truncate_from i l.log_storage).1 l))
unfolding delete_entries_from
delete_outcome i l h = ground (arith)

discard_outcome :
    (i t : ℕ) (l : LogManager)
    → IsManaged l
    → ((discard_entries_up_to i t l).1 ≡ l)
      ⊎ ((l.snapshot_index < i)
          × ((discard_entries_up_to i t l).1 ≡ synced (Log.compact i t l.log_storage).1 l))
unfolding discard_entries_up_to
discard_outcome i t l h = ground (arith)

reset_outcome :
    (i t : ℕ) (l : LogManager)
    → IsManaged l
    → (reset_to_snapshot i t l).1 ≡ synced (Log.reset i t l.log_storage).1 l
unfolding reset_to_snapshot
reset_outcome i t l h = ground (arith)

open-append :
    (es : List LogEntry) (s : LogStorage)
    → s.is_open_flag ≡ true
    → (Log.append es s).1.is_open_flag ≡ true
unfolding Log.append
open-append [] s o = ground arith
open-append (e ∷ es) s o = ground arith

open-truncate :
    (i : ℕ) (s : LogStorage) → s.is_open_flag ≡ true → (Log.truncate_from i s).1.is_open_flag ≡ true
unfolding Log.truncate_from
open-truncate i s o = ground arith

open-compact :
    (i t : ℕ) (s : LogStorage) → s.is_open_flag ≡ true → (Log.compact i t s).1.is_open_flag ≡ true
unfolding Log.compact
open-compact i t s o = ground arith

open-reset :
    (i t : ℕ) (s : LogStorage) → s.is_open_flag ≡ true → (Log.reset i t s).1.is_open_flag ≡ true
unfolding Log.reset
open-reset i t s o = ground arith

-- An outcome that is the old manager, or a well-formed storage taken over, keeps the invariant.
keep :
    {l l' : LogManager} (s : LogStorage)
    → IsManaged l
    → IsLog s
    → s.is_open_flag ≡ true
    → l' ≡ synced s l
    → IsManaged l'
keep {l} {l'} s h g o e = subst IsManaged (sym e) (synced-IsManaged s l h g o)

pub append_entry-IsManaged :
    (e : LogEntry) (l : LogManager) → IsManaged l → IsManaged (append_entry e l).1
append_entry-IsManaged e l h = elim (append_entry_outcome e l h) [
  | inl same ↦ subst IsManaged (sym same) h
  | inr (c, e') ↦
      keep (Log.append (e ∷ []) l.log_storage).1 h
        (append-IsLog (e ∷ []) l.log_storage h.log (rw (← h.last_index) c))
        (open-append (e ∷ []) l.log_storage h.is_open) e'
]

pub append_entries-IsManaged :
    (es : List LogEntry) (l : LogManager) → IsManaged l → IsManaged (append_entries es l).1
append_entries-IsManaged es l h = elim (append_entries_outcome es l h) [
  | inl same ↦ subst IsManaged (sym same) h
  | inr (c, e') ↦
      keep (Log.append es l.log_storage).1 h
        (append-IsLog es l.log_storage h.log (rw (← h.last_index) c))
        (open-append es l.log_storage h.is_open) e'
]

pub delete-IsManaged :
    (i : ℕ) (l : LogManager) → IsManaged l → IsManaged (delete_entries_from i l).1
delete-IsManaged i l h = elim (delete_outcome i l h) [
  | inl same ↦ subst IsManaged (sym same) h
  | inr (lo, hi, e') ↦
      keep (Log.truncate_from i l.log_storage).1 h
        (truncate-IsLog i l.log_storage h.log (omega arith) (omega arith))
        (open-truncate i l.log_storage h.is_open) e'
]

pub discard-IsManaged :
    (i t : ℕ) (l : LogManager) → IsManaged l → IsManaged (discard_entries_up_to i t l).1
discard-IsManaged i t l h = elim (discard_outcome i t l h) [
  | inl same ↦ subst IsManaged (sym same) h
  | inr (lo, e') ↦
      keep (Log.compact i t l.log_storage).1 h (compact-IsLog i t l.log_storage h.log (omega arith))
        (open-compact i t l.log_storage h.is_open) e'
]

pub reset-IsManaged :
    (i t : ℕ) (l : LogManager) → IsManaged l → IsManaged (reset_to_snapshot i t l).1
reset-IsManaged i t l h =
    keep (Log.reset i t l.log_storage).1 h (reset-IsLog i t l.log_storage h.log)
      (open-reset i t l.log_storage h.is_open) (reset_outcome i t l h)

clear_outcome :
    (l : LogManager)
    → IsManaged l
    → ((clear l).1 ≡ l) ⊎ ((clear l).1 ≡ (delete_entries_from (l.snapshot_index + 1) l).1)
unfolding clear
clear_outcome l h = ground arith

pub clear-IsManaged : (l : LogManager) → IsManaged l → IsManaged (clear l).1
clear-IsManaged l h = elim (clear_outcome l h) [
  | inl same ↦ subst IsManaged (sym same) h
  | inr e ↦ subst IsManaged (sym e) (delete-IsManaged (l.snapshot_index + 1) l h)
]
