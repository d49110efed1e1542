-- ===== src/Snapshot/Saving.antt =====
-- Saving and loading a snapshot with SnapshotManager.ts.
use compaction.Prelude.{◌<◌, ◌≡◌, some, true, arith}
use compaction.Prelude.Exec.{ok}
use compaction.Storage.Snapshot.{Snapshot, meta_of}
use compaction.Snapshot.{
  SnapshotManager, new, initialize, save_snapshot, load_snapshot, has_snapshot,
  get_snapshot_metadata,
}

-- What a manager answers that has the snapshot.
pub record Holds (s : Snapshot) (m : SnapshotManager) : Type 0 where
  pub known : (has_snapshot m).0 ≡ ok true
  pub metadata : (get_snapshot_metadata m).0 ≡ ok (meta_of (some s))
  pub loaded : (load_snapshot m).0 ≡ ok (some s)

-- The manager that is initialized over the storage that another one leaves behind.
abbrev pub restarted : SnapshotManager → SnapshotManager
restarted m = (initialize (new m.snapshot_storage)).1

-- On an initialized manager over an open storage, saving a snapshot of a positive index succeeds,
-- and the manager as well as one that is initialized again over the storage then has it, reports
-- its metadata and loads it.
pub save_snapshot-Holds :
    (s : Snapshot) (m : SnapshotManager)
    → m.initialized ≡ true
    → m.snapshot_storage.is_open_flag ≡ true
    → 0 < s.last_included_index
    → ((save_snapshot s m).0 ≡ ok tt)
      × Holds s (save_snapshot s m).1
      × Holds s (restarted (save_snapshot s m).1)
unfolding save_snapshot load_snapshot has_snapshot get_snapshot_metadata initialize
save_snapshot-Holds s m i o pos = (
  ground arith,
  record { known = ground arith; metadata = ground arith; loaded = ground arith },
  record { known = ground arith; metadata = ground arith; loaded = ground arith },
)
