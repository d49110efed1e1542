-- ===== src/Examples/Journals.antt =====
-- Changes of InMemoryLogStorage.ts and of the abstract log.
use compaction.Prelude.{List, ◌≡◌, refl, [], ◌∷◌, arith}
use compaction.Prelude.Exec.{ok}
use compaction.Examples.{opened_log, opened_log-IsLog, blank_entry}
use compaction.Storage.Log.{get_entry}
use compaction.Storage.Log.Journal.{
  Journal, Change, appended, truncated, compacted, Represents, AreAllowed, change_all, amend_all,
  item_at, storage-Represents,
}

abbrev blank_journal : Journal
blank_journal = record { boundary = 0; boundary_term = 0; items = [] }

opened_log-Represents : Represents opened_log blank_journal
opened_log-Represents = record {
  log = opened_log-IsLog;
  is_open = refl;
  boundary = refl;
  boundary_term = refl;
  last_index = refl;
  entries = λ i. ground arith;
}

abbrev changes : List Change
changes =
    appended (blank_entry 1 1 ∷ blank_entry 2 1 ∷ blank_entry 3 2 ∷ [])
    ∷ truncated 3
    ∷ compacted 1 1
    ∷ []

changes-AreAllowed : AreAllowed changes blank_journal
changes-AreAllowed = ((refl, (refl, (refl, tt))), ((omega arith, omega arith), (omega arith, tt)))

storage-Represents_example :
    Represents (change_all changes opened_log) (amend_all changes blank_journal)
    × (get_entry 2 (change_all changes opened_log)
        ≡ (ok (item_at (amend_all changes blank_journal) 2), change_all changes opened_log))
storage-Represents_example =
    storage-Represents changes opened_log blank_journal 2 opened_log-Represents changes-AreAllowed
