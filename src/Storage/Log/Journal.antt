-- ===== src/Storage/Log/Journal.antt =====
-- InMemoryLogStorage.ts as an abstract log: a boundary and the list of the entries behind it.
use compaction.Prelude.{
  subst, append_nil, ℕ, ◌+◌, ◌-◌, ◌≤◌, ◌<◌, Option, none, true, List, [], ◌∷◌, ◌++◌, ◌≡◌, sym,
  arith, ltb, length, length-append, get_elem?, take, drop, get_elem?-append, get_elem?-take,
  get_elem?-drop, length-take, length-drop, if◌then◌else◌,
}
use compaction.Prelude.Exec.{Exec, ok}
use compaction.Log.{LogEntry}
use compaction.Storage.Log.{LogStorage, append, truncate_from, compact, reset, get_entry}
use compaction.Storage.Log.Invariant.{
  IsLog, Contiguous, put_all_lem, delete_from_lem, append-IsLog, truncate-IsLog, compact-IsLog,
  reset-IsLog, last-index, get_elem?-is_some,
}

pub record Journal : Type 0 where
  pub boundary : ℕ
  pub boundary_term : ℕ
  pub items : List LogEntry

abbrev pub last_of : Journal → ℕ
last_of j = j.boundary + length j.items

abbrev pub item_at : Journal → ℕ → Option LogEntry
item_at j i = if ltb j.boundary i then get_elem? j.items (i - j.boundary - 1) else none

-- What the storage is told to do.
pub data Change : Type 0 where
  appended : List LogEntry → Change
  truncated : ℕ → Change
  compacted reset_to : ℕ → ℕ → Change

abbrev pub change : Change → Exec LogStorage Unit
change (appended es) = append es
change (truncated i) = truncate_from i
change (compacted i t) = compact i t
change (reset_to i t) = reset i t

-- What it means for the abstract log.
abbrev pub amend : Change → Journal → Journal
amend (appended es) j = record j { items = j.items ++ es }
amend (truncated i) j = record j { items = take (i - j.boundary - 1) j.items }
amend (compacted i t) j = record {
  boundary = i;
  boundary_term = t;
  items = drop (i - j.boundary) j.items;
}
amend (reset_to i t) j = record { boundary = i; boundary_term = t; items = [] }

-- The changes that the log manager makes.
abbrev pub IsAllowed : Change → Journal → Type 0
IsAllowed (appended es) j = Contiguous (last_of j + 1) es
IsAllowed (truncated i) j = (j.boundary < i) × (i ≤ last_of j)
IsAllowed (compacted i t) j = j.boundary < i
IsAllowed (reset_to i t) j = Unit

pub record Represents (s : LogStorage) (j : Journal) : Type 0 where
  pub log : IsLog s
  pub is_open : s.is_open_flag ≡ true
  pub boundary : s.snapshot_index ≡ j.boundary
  pub boundary_term : s.snapshot_term ≡ j.boundary_term
  pub last_index : s.last_index ≡ last_of j
  pub entries : (i : ℕ) → s.entries i ≡ item_at j i

-- Reading an entry gives the item.
pub read_item :
    (s : LogStorage) (j : Journal) (i : ℕ) → Represents s j → get_entry i s ≡ (ok (item_at j i), s)
unfolding get_entry
read_item s j i h = ground (arith, h.is_open, h.boundary, h.last_index, h.entries i, h.log.range i)

reset-Represents :
    (i t : ℕ) (s : LogStorage) (j : Journal)
    → Represents s j
    → Represents (reset i t s).1 (amend (reset_to i t) j)
unfolding reset
reset-Represents i t s j h = record {
  log = reset-IsLog i t s h.log;
  is_open = ground (arith, h.is_open);
  boundary = ground (arith, h.is_open);
  boundary_term = ground (arith, h.is_open);
  last_index = ground (arith, h.is_open);
  entries = λ k. ground (arith, h.is_open);
}

append-Represents :
    (es : List LogEntry) (s : LogStorage) (j : Journal)
    → Represents s j
    → Contiguous (last_of j + 1) es
    → Represents (append es s).1 (amend (appended es) j)
unfolding append
append-Represents [] s j h c =
    let same : (append [] s).1 ≡ s = ground (arith, h.is_open) in
    subst (λ x. Represents x (amend (appended []) j)) (sym same) (rw (append_nil j.items) h)
append-Represents (e ∷ es) s j h c = record {
  log = append-IsLog (e ∷ es) s h.log (rw h.last_index c);
  is_open = ground (arith, h.is_open);
  boundary = ground (arith, h.is_open, h.boundary);
  boundary_term = ground (arith, h.is_open, h.boundary_term);
  last_index =
      ground (arith, h.is_open, last-index (last_of j + 1) e es c, length-append j.items (e ∷ es));
  entries = λ k.
      let q : k - (last_of j + 1) ≡ k - j.boundary - 1 - length j.items = omega arith in
      ground (
        arith,
        q,
        get_elem?-is_some (e ∷ es) (k - (last_of j + 1)),
        h.is_open,
        h.boundary,
        h.last_index,
        h.entries k,
        h.log.range k,
        put_all_lem (last_of j + 1) (e ∷ es) s.entries k c,
        get_elem?-append j.items (e ∷ es) (k - j.boundary - 1),
      );
}

truncate-Represents :
    (i : ℕ) (s : LogStorage) (j : Journal)
    → Represents s j
    → j.boundary < i
    → i ≤ last_of j
    → Represents (truncate_from i s).1 (amend (truncated i) j)
unfolding truncate_from
truncate-Represents i s j h lo hi = record {
  log = truncate-IsLog i s h.log (omega (arith, h.boundary)) (omega (arith, h.last_index));
  is_open = ground (arith, h.is_open);
  boundary = ground (arith, h.is_open, h.boundary);
  boundary_term = ground (arith, h.is_open, h.boundary_term);
  last_index =
      ground (arith, h.is_open, h.boundary, h.last_index, length-take (i - j.boundary - 1) j.items);
  entries = λ k. ground (
    arith,
    h.is_open,
    h.boundary,
    h.last_index,
    h.entries k,
    h.log.range k,
    delete_from_lem (s.last_index + 1 - i) i s.entries k,
    get_elem?-take (i - j.boundary - 1) j.items (k - j.boundary - 1),
  );
}

compact-Represents :
    (i t : ℕ) (s : LogStorage) (j : Journal)
    → Represents s j
    → j.boundary < i
    → Represents (compact i t s).1 (amend (compacted i t) j)
unfolding compact
compact-Represents i t s j h lo = record {
  log = compact-IsLog i t s h.log (omega (arith, h.boundary));
  is_open = ground (arith, h.is_open);
  boundary = ground (arith, h.is_open, h.boundary);
  boundary_term = ground (arith, h.is_open, h.boundary_term);
  last_index =
      ground (arith, h.is_open, h.boundary, h.last_index, length-drop (i - j.boundary) j.items);
  entries = λ k. ground (
    arith,
    h.is_open,
    h.boundary,
    h.last_index,
    h.entries k,
    delete_from_lem (i - s.snapshot_index) (s.snapshot_index + 1) s.entries k,
    get_elem?-drop (i - j.boundary) j.items (k - i - 1),
  );
}

-- Every allowed change succeeds, and what the storage then represents is the amended log.
pub change-Represents :
    (c : Change) (s : LogStorage) (j : Journal)
    → Represents s j
    → IsAllowed c j
    → (change c s ≡ (ok tt, (change c s).1)) × Represents (change c s).1 (amend c j)
change-Represents (appended es) s j h a =
    (unfold append in ground (arith, h.is_open), append-Represents es s j h a)
change-Represents (truncated i) s j h (lo, hi) =
    (unfold truncate_from in ground (arith, h.is_open), truncate-Represents i s j h lo hi)
change-Represents (compacted i t) s j h a =
    (unfold compact in ground (arith, h.is_open), compact-Represents i t s j h a)
change-Represents (reset_to i t) s j h a =
    (unfold reset in ground (arith, h.is_open), reset-Represents i t s j h)

abbrev pub amend_all : List Change → Journal → Journal
amend_all [] j = j
amend_all (c ∷ cs) j = amend_all cs (amend c j)

abbrev pub change_all : List Change → LogStorage → LogStorage
change_all [] s = s
change_all (c ∷ cs) s = change_all cs (change c s).1

-- Each change is allowed where it is made.
abbrev pub AreAllowed : List Change → Journal → Type 0
AreAllowed [] j = Unit
AreAllowed (c ∷ cs) j = IsAllowed c j × AreAllowed cs (amend c j)

all-Represents :
    (cs : List Change) (s : LogStorage) (j : Journal)
    → Represents s j
    → AreAllowed cs j
    → Represents (change_all cs s) (amend_all cs j)
all-Represents [] s j h a = h
all-Represents (c ∷ cs) s j h a =
    all-Represents cs (change c s).1 (amend c j) ((change-Represents c s j h a.0).1) a.1

-- An open, well-formed storage that represents an abstract log, a boundary and the list of the
-- entries behind it, represents after any sequence of allowed changes the log that they make of it:
-- appending is concatenation, truncating keeps a prefix, compacting drops one and moves the
-- boundary, and a reset moves the boundary to the given index and keeps no entry behind it; an
-- entry that is read is the item at its index, or none.
pub storage-Represents :
    (cs : List Change) (s : LogStorage) (j : Journal) (i : ℕ)
    → Represents s j
    → AreAllowed cs j
    → Represents (change_all cs s) (amend_all cs j)
      × (get_entry i (change_all cs s) ≡ (ok (item_at (amend_all cs j) i), change_all cs s))
storage-Represents cs s j i h a =
    let r = all-Represents cs s j h a in (r, read_item (change_all cs s) (amend_all cs j) i r)
