-- ===== src/Examples.antt =====
-- Runs of the code on small inputs, where the general theorems apply.
pub mod Logs
pub mod States
pub mod Nodes
pub mod Answers
pub mod Clusters
pub mod Transfers
pub mod Configs
pub mod Journals
pub mod Orders
use compaction.Prelude.{
  refl, arith, arith, ℕ, Option, none, some, List, [], ◌∷◌, true, false, String,
}
use compaction.Storage.Log
use compaction.Storage.Log.{LogStorage}
use compaction.Storage.Log.Invariant.{IsLog}
use compaction.Storage.Meta
use compaction.Storage.Meta.{MetaStorage}
use compaction.Config.{ClusterMember, ClusterConfig}
use compaction.Log.{LogEntry, LogEntryType, noop}
use compaction.Log.Manager.{LogManager, new, initialize, append_entries}
use compaction.Log.Manager.Invariant.{IsManaged, initialize-IsManaged, append_entries-IsManaged}

abbrev pub blank_entry : ℕ → ℕ → LogEntry
blank_entry i t = record {
  term = t;
  index = i;
  type = noop;
  command = none;
  config = none;
  start_idx = none;
  final_idx = none;
}

abbrev pub opened_log : LogStorage
opened_log = record Log.empty { is_open_flag = true }

abbrev pub opened_meta : MetaStorage
opened_meta = record Meta.empty { is_open_flag = true }

pub opened_log-IsLog : IsLog opened_log
opened_log-IsLog = record {
  bounded = ground arith;
  range = λ i. ground arith;
  indexed = λ i e h. ground arith;
  tail = refl;
}

-- Terms 1 and 1 at the indices 1 and 2.
abbrev pub short_log : LogManager
short_log =
    (append_entries (blank_entry 1 1 ∷ blank_entry 2 1 ∷ []) (initialize (new opened_log)).1).1

pub short_log-IsManaged : IsManaged short_log
short_log-IsManaged =
    append_entries-IsManaged (blank_entry 1 1 ∷ blank_entry 2 1 ∷ [])
      (initialize (new opened_log)).1 (initialize-IsManaged opened_log opened_log-IsLog refl)

abbrev pub member : String → ClusterMember
member i = record { id = i; address = i }

abbrev pub trio : ClusterConfig
trio = record { voters = member "a" ∷ member "b" ∷ member "c" ∷ []; learners = [] }
