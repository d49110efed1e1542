-- ===== src/Storage/Log/Invariant.antt =====
-- What InMemoryLogStorage.ts keeps between two calls.
use compaction.Prelude.{
  not, refl, ◌<◌, last, ℕ, zero, suc, ◌+◌, ◌-◌, ◌≤◌, none, some, Bool, true, false, not, ◌&&◌, ◌≡◌,
  arith, List, [], ◌∷◌, ltb, leb, if◌then◌else◌, is_some, length, get_elem?,
}
use compaction.Prelude.Exec.{storage, throw_if, resume}
use compaction.Log.{LogEntry}
use compaction.Storage.Log.{
  modify, ◌>>◌, append_open, truncate_open, compact_open, ensure_open, append, reset, compact,
  truncate_from, Entries, LogStorage, put, delete, put_all, delete_from, term_or,
}

-- Exactly the indices between the boundary and the tail hold an entry, each at its own index, and
-- the tail's term is the last entry's, or the boundary's where no entry is retained.
pub record IsLog (s : LogStorage) : Type 0 where
  pub bounded : s.snapshot_index ≤ s.last_index
  pub range : (i : ℕ) → is_some (s.entries i) ≡ (ltb s.snapshot_index i && leb i s.last_index)
  pub indexed : (i : ℕ) (e : LogEntry) → s.entries i ≡ some e → e.index ≡ i
  pub tail : s.last_term ≡ term_or (s.entries s.last_index) s.snapshot_term

-- The entries stand at `k`, `k + 1`, and so on.
abbrev pub Contiguous : ℕ → List LogEntry → Type 0
Contiguous k [] = Unit
Contiguous k (e ∷ es) = (e.index ≡ k) × Contiguous (k + 1) es

abbrev within : ℕ → ℕ → ℕ → Bool
within i k n = leb k i && ltb i (k + n)

pub delete_from_lem :
    (n k : ℕ) (m : Entries) (i : ℕ) → delete_from n k m i ≡ (if within i k n then none else m i)
unfolding delete_from
delete_from_lem zero k m i = ground arith
delete_from_lem (suc n) k m i = ground (arith, delete_from_lem n (k + 1) (delete m k) i)

pub put_all_lem :
    (k : ℕ) (es : List LogEntry) (m : Entries) (i : ℕ)
    → Contiguous k es
    → put_all m es i ≡ (if within i k (length es) then get_elem? es (i - k) else m i)
unfolding put_all
put_all_lem k [] m i c = ground arith
put_all_lem k (e ∷ es) m i c = ground (arith, put_all_lem (k + 1) es (put m e.index e) i c.1)

last-get_elem? :
    (e : LogEntry) (es : List LogEntry) → get_elem? (e ∷ es) (length es) ≡ some (last e es)
last-get_elem? e [] = refl
last-get_elem? e (x ∷ es) = last-get_elem? x es

pub last-index :
    (k : ℕ) (e : LogEntry) (es : List LogEntry)
    → Contiguous k (e ∷ es)
    → (last e es).index ≡ k + length es
last-index k e [] c = omega arith
last-index k e (x ∷ es) c = omega (arith, last-index (k + 1) x es c.1)

get_elem?-index :
    (k : ℕ) (es : List LogEntry) (j : ℕ) (e : LogEntry)
    → Contiguous k es
    → get_elem? es j ≡ some e
    → e.index ≡ k + j
get_elem?-index k [] j e c h = cc
get_elem?-index k (x ∷ es) zero e c h = ground arith
get_elem?-index k (x ∷ es) (suc j) e c h = omega (arith, get_elem?-index (k + 1) es j e c.1 h)

pub get_elem?-is_some : (es : List LogEntry) (j : ℕ) → is_some (get_elem? es j) ≡ ltb j (length es)
get_elem?-is_some [] j = ground arith
get_elem?-is_some (x ∷ es) zero = ground arith
get_elem?-is_some (x ∷ es) (suc j) = ground (arith, get_elem?-is_some es j)

-- Every operation is `ensureOpen` and a change of the open storage.
guarded :
    (f : LogStorage → LogStorage) (s : LogStorage)
    → IsLog s
    → IsLog (f s)
    → IsLog ((ensure_open >> modify f) s).1
unfolding ensure_open
guarded f s h hf =
    elim s.is_open_flag as (λ b. IsLog (resume (λ _. modify f) (throw_if (not b) storage s)).1) [
      | true ↦ hf
      | false ↦ h
    ]

append_open-IsLog :
    (es : List LogEntry) (s : LogStorage)
    → IsLog s
    → Contiguous (s.last_index + 1) es
    → IsLog (append_open es s)
append_open-IsLog [] s h c = h
append_open-IsLog (e ∷ es) s h c =
    let k = s.last_index + 1 in
    let here = λ (i : ℕ). put_all_lem k (e ∷ es) s.entries i c in
    record {
      bounded = omega (arith, last-index k e es c, h.bounded);
      range = λ i. ground (
        arith,
        here i,
        h.range i,
        h.bounded,
        last-index k e es c,
        get_elem?-is_some (e ∷ es) (i - k),
      );
      indexed =
          λ i x p. ground (arith, here i, h.indexed i x, get_elem?-index k (e ∷ es) (i - k) x c);
      tail = ground (arith, here (last e es).index, last-index k e es c, last-get_elem? e es);
    }

truncate_open-IsLog :
    (index : ℕ) (s : LogStorage)
    → IsLog s
    → s.snapshot_index < index
    → index ≤ s.last_index
    → IsLog (truncate_open index s)
truncate_open-IsLog index s h lo hi =
    let n = s.last_index + 1 - index in
    let here = λ (i : ℕ). delete_from_lem n index s.entries i in
    record {
      bounded = ground (arith, h.bounded);
      range = λ i. ground (arith, here i, h.range i, h.bounded);
      indexed = λ i x p. ground (arith, here i, h.indexed i x);
      tail = ground (
        arith,
        here (index - 1),
        here s.snapshot_index,
        h.range s.snapshot_index,
        h.range (index - 1),
      );
    }

compact_open-IsLog :
    (index t : ℕ) (s : LogStorage)
    → IsLog s
    → s.snapshot_index < index
    → IsLog (compact_open index t s)
compact_open-IsLog index t s h lo =
    let here =
      λ (i : ℕ). delete_from_lem (index - s.snapshot_index) (s.snapshot_index + 1) s.entries i in
    record {
      bounded = ground (arith, h.bounded);
      range = λ i. ground (arith, here i, h.range i, h.bounded);
      indexed = λ i x p. ground (arith, here i, h.indexed i x);
      tail =
          ground
            (arith, here index, here s.last_index, h.range s.last_index, h.range index, h.tail);
    }

-- Entries appended at the tail keep the invariant.
pub append-IsLog :
    (es : List LogEntry) (s : LogStorage)
    → IsLog s
    → Contiguous (s.last_index + 1) es
    → IsLog (append es s).1
unfolding append
append-IsLog es s h c = guarded (append_open es) s h (append_open-IsLog es s h c)

pub truncate-IsLog :
    (index : ℕ) (s : LogStorage)
    → IsLog s
    → s.snapshot_index < index
    → index ≤ s.last_index
    → IsLog (truncate_from index s).1
unfolding truncate_from
truncate-IsLog index s h lo hi =
    guarded (truncate_open index) s h (truncate_open-IsLog index s h lo hi)

pub compact-IsLog :
    (index t : ℕ) (s : LogStorage)
    → IsLog s
    → s.snapshot_index < index
    → IsLog (compact index t s).1
unfolding compact
compact-IsLog index t s h lo =
    guarded (compact_open index t) s h (compact_open-IsLog index t s h lo)

-- Whatever the storage held, it is well formed after a reset of the open storage.
pub reset-IsLog : (index t : ℕ) (s : LogStorage) → IsLog s → IsLog (reset index t s).1
unfolding reset
reset-IsLog index t s h = guarded _ s h (record {
  bounded = omega arith;
  range = λ i. ground arith;
  indexed = λ i e p. ground arith;
  tail = refl;
})
