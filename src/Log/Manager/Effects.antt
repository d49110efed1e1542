-- ===== src/Log/Manager/Effects.antt =====
-- What the writing methods of LogManager.ts leave behind when they succeed, and when they do.
use compaction.Prelude.{
  ℕ, zero, suc, ◌+◌, ◌-◌, ◌≤◌, ◌<◌, Option, some, true, ◌≡◌, refl, arith, List, [], ◌∷◌, length,
  get_elem?,
}
use compaction.Prelude.Exec.{ok}
use compaction.Log.{LogEntry}
use compaction.Storage.Log.Invariant.{Contiguous, put_all_lem, delete_from_lem, last-index}
use compaction.Log.Manager.{
  LogManager, validate_all, contiguous_from, append_entries, delete_entries_from,
}
use compaction.Log.Manager.Invariant.{IsManaged, append_entries-IsManaged, delete-IsManaged}

-- The entry that the log retains at an index.
abbrev pub entry_at : LogManager → ℕ → Option LogEntry
entry_at l i = l.log_storage.entries i

-- The tail moved to `c - 1`, and nothing else changed.
pub record IsTruncated (c : ℕ) (l l' : LogManager) : Type 0 where
  pub managed : IsManaged l'
  pub last_index : l'.last_index + 1 ≡ c
  pub snapshot_index : l'.snapshot_index ≡ l.snapshot_index
  pub snapshot_term : l'.snapshot_term ≡ l.snapshot_term
  pub kept : (i : ℕ) → i < c → entry_at l' i ≡ entry_at l i

pub delete_done :
    (c : ℕ) (l : LogManager)
    → IsManaged l
    → l.snapshot_index < c
    → c ≤ l.last_index
    → (delete_entries_from c l ≡ (ok tt, (delete_entries_from c l).1))
      × IsTruncated c l (delete_entries_from c l).1
delete_done c l h lo hi = (
  unfold delete_entries_from in ground arith,
  record {
    managed = delete-IsManaged c l h;
    last_index = unfold delete_entries_from in ground arith;
    snapshot_index = unfold delete_entries_from in ground arith;
    snapshot_term = unfold delete_entries_from in ground arith;
    kept = λ i p.
        unfold delete_entries_from in
        ground (arith, delete_from_lem (l.last_index + 1 - c) c l.log_storage.entries i);
  },
)

contiguous_from-Contiguous :
    (k : ℕ) (es : List LogEntry) → Contiguous k es → contiguous_from k es ≡ true
unfolding contiguous_from
contiguous_from-Contiguous k [] c = refl
contiguous_from-Contiguous k (e ∷ es) c = ground (arith, contiguous_from-Contiguous (k + 1) es c.1)

-- The entries stand behind the old tail, and nothing else changed.
pub record IsExtended (es : List LogEntry) (l l' : LogManager) : Type 0 where
  pub managed : IsManaged l'
  pub last_index : l'.last_index ≡ l.last_index + length es
  pub snapshot_index : l'.snapshot_index ≡ l.snapshot_index
  pub snapshot_term : l'.snapshot_term ≡ l.snapshot_term
  pub kept : (i : ℕ) → i ≤ l.last_index → entry_at l' i ≡ entry_at l i
  pub added :
      (j : ℕ) (e : LogEntry) → get_elem? es j ≡ some e → entry_at l' (l.last_index + 1 + j) ≡ some e

get_elem?-lt : (es : List LogEntry) (j : ℕ) (e : LogEntry) → get_elem? es j ≡ some e → j < length es
get_elem?-lt [] j e h = cc
get_elem?-lt (x ∷ es) zero e h = omega arith
get_elem?-lt (x ∷ es) (suc j) e h = omega (arith, get_elem?-lt es j e h)

pub append_done :
    (es : List LogEntry) (l : LogManager)
    → IsManaged l
    → Contiguous (l.last_index + 1) es
    → validate_all es ≡ ok tt
    → (append_entries es l ≡ (ok (append_entries es l).1.last_index, (append_entries es l).1))
      × IsExtended es l (append_entries es l).1
append_done [] l h c v = (
  unfold append_entries in ground arith,
  record {
    managed = append_entries-IsManaged [] l h;
    last_index = unfold append_entries in ground arith;
    snapshot_index = unfold append_entries in ground arith;
    snapshot_term = unfold append_entries in ground arith;
    kept = λ i p. unfold append_entries in ground arith;
    added = λ j e p. cc;
  },
)
append_done (e ∷ es) l h c v =
    let cf = contiguous_from-Contiguous (l.last_index + 1) (e ∷ es) c in
    let put = λ (i : ℕ). put_all_lem (l.last_index + 1) (e ∷ es) l.log_storage.entries i c in
    (
      unfold append_entries in ground (arith, cf),
      record {
        managed = append_entries-IsManaged (e ∷ es) l h;
        last_index =
            unfold append_entries in ground (arith, cf, last-index (l.last_index + 1) e es c);
        snapshot_index = unfold append_entries in ground (arith, cf);
        snapshot_term = unfold append_entries in ground (arith, cf);
        kept = λ i p. unfold append_entries in ground (arith, cf, put i);
        added = λ j x p.
            unfold append_entries in
            ground (arith, cf, put (l.last_index + 1 + j), get_elem?-lt (e ∷ es) j x p);
      },
    )
