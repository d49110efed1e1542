-- ===== src/Snapshot.antt =====
-- packages/raft-core/src/snapshot/SnapshotManager.ts: the snapshot storage with its metadata cached.
pub mod Saving
use compaction.Prelude.{ℕ, Option, none, some, Bool, true, false, not, ltb, ◌==◌, if◌then◌else◌}
use compaction.Prelude.Exec.{Exec, Result, ok, storage, throw_if, gets, modify, return, ◌>>=◌, ◌>>◌}
use compaction.Storage.Snapshot as Storage
use compaction.Storage.Snapshot.{Snapshot, SnapshotMetaData, SnapshotStorage}

pub record SnapshotManager : Type 0 where
  pub cached_index : ℕ
  pub cached_term : ℕ
  pub initialized : Bool
  pub snapshot_storage : SnapshotStorage

abbrev pub new : SnapshotStorage → SnapshotManager
new s = record { cached_index = 0; cached_term = 0; initialized = false; snapshot_storage = s }

abbrev with_storage :
    {A : Type 0} → SnapshotManager → Result A × SnapshotStorage → Result A × SnapshotManager
with_storage m (r, s) = (r, record m { snapshot_storage = s })

abbrev on_storage : {A : Type 0} → Exec SnapshotStorage A → Exec SnapshotManager A
on_storage f m = with_storage m (f m.snapshot_storage)

unfoldable pub ensure_initialized : Exec SnapshotManager Unit
ensure_initialized m = throw_if (not m.initialized) storage m

abbrev pub cached : SnapshotManager → Option SnapshotMetaData
cached m =
    if ltb 0 m.cached_index
    then some (record { last_included_index = m.cached_index; last_included_term = m.cached_term })
    else none

abbrev adopt : Option SnapshotMetaData → Exec SnapshotManager (Option SnapshotMetaData)
adopt none m = (ok none, record m { initialized = true })
adopt (some d) m = (
  ok (some d),
  record m {
    cached_index = d.last_included_index;
    cached_term = d.last_included_term;
    initialized = true;
  },
)

unfoldable pub initialize : Exec SnapshotManager (Option SnapshotMetaData)
unfolding Storage.read_metadata
initialize m =
    if m.initialized then (ok (cached m), m) else (on_storage Storage.read_metadata >>= adopt) m

unfoldable pub save_snapshot : Snapshot → Exec SnapshotManager Unit
unfolding ensure_initialized Storage.save
save_snapshot s = do
  ensure_initialized
  on_storage (Storage.save s)
  modify
      (λ m. record m { cached_index = s.last_included_index; cached_term = s.last_included_term })

unfoldable pub load_snapshot : Exec SnapshotManager (Option Snapshot)
unfolding ensure_initialized Storage.load
load_snapshot = do
  ensure_initialized
  empty ← gets (λ m. m.cached_index == 0)
  if empty then return none else on_storage Storage.load

unfoldable pub has_snapshot : Exec SnapshotManager Bool
unfolding ensure_initialized
has_snapshot = do ensure_initialized; gets (λ m. ltb 0 m.cached_index)

unfoldable pub get_snapshot_metadata : Exec SnapshotManager (Option SnapshotMetaData)
unfolding ensure_initialized
get_snapshot_metadata = do ensure_initialized; gets cached
