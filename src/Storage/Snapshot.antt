-- ===== src/Storage/Snapshot.antt =====
-- packages/raft-core/src/storage/inMemory/InMemorySnapshotStorage.ts: the latest snapshot. The deep
-- copies that `save` and `load` make are the values themselves.
use compaction.Prelude.{ℕ, Option, none, some, Bool, true, false, not, List}
use compaction.Prelude.Exec.{Exec, storage, throw_if, gets, modify, ◌>>=◌, ◌>>◌}
use compaction.Config.{ClusterConfig}

-- A `Buffer`: its bytes.
abbrev pub Buffer : Type 0
Buffer = List ℕ

pub record SnapshotMetaData : Type 0 where
  pub last_included_index : ℕ
  pub last_included_term : ℕ

pub record Snapshot : Type 0 where
  pub last_included_index : ℕ
  pub last_included_term : ℕ
  pub bytes : Buffer
  pub config : ClusterConfig

pub record SnapshotStorage : Type 0 where
  pub snapshot : Option Snapshot
  pub is_open_flag : Bool

abbrev pub empty : SnapshotStorage
empty = record { snapshot = none; is_open_flag = false }

unfoldable pub ensure_open : Exec SnapshotStorage Unit
ensure_open m = throw_if (not m.is_open_flag) storage m

unfoldable pub open_storage : Exec SnapshotStorage Unit
open_storage = do
  flag ← gets (λ m. m.is_open_flag)
  throw_if flag storage
  modify (λ m. record m { is_open_flag = true })

unfoldable pub close : Exec SnapshotStorage Unit
unfolding ensure_open
close = do ensure_open; modify (λ m. record m { is_open_flag = false })

abbrev pub meta_of : Option Snapshot → Option SnapshotMetaData
meta_of none = none
meta_of (some s) = some (record {
  last_included_index = s.last_included_index;
  last_included_term = s.last_included_term;
})

unfoldable pub read_metadata : Exec SnapshotStorage (Option SnapshotMetaData)
unfolding ensure_open
read_metadata = do ensure_open; gets (λ m. meta_of m.snapshot)

unfoldable pub save : Snapshot → Exec SnapshotStorage Unit
unfolding ensure_open
save s = do ensure_open; modify (λ m. record m { snapshot = some s })

unfoldable pub load : Exec SnapshotStorage (Option Snapshot)
unfolding ensure_open
load = do ensure_open; gets (λ m. m.snapshot)
