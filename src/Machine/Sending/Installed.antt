-- ===== src/Machine/Sending/Installed.antt =====
-- The end of a snapshot that `sendSnapshot` of StateMachine.ts sends, at the receiver.
use compaction.Prelude.{ℕ, ◌≡◌, refl, ap, ◌∙◌, arith, some, Bool, true, false, if◌then◌else◌}
use compaction.Prelude.Exec.{Exec, Result, ok, err, return, resume, ◌>>=◌, ◌>>◌}
use compaction.Storage.Snapshot.{Buffer, Snapshot}
use compaction.State.Persistent.{PersistentState}
use compaction.State.Volatile.{VolatileState}
use compaction.Config.{ClusterConfig}
use compaction.Config.Manager.{ConfigManager}
use compaction.Log.Manager.{LogManager}
use compaction.Snapshot.{SnapshotManager, save_snapshot}
use compaction.Machine.{Node, InstallSnapshotRequest, log, volatile, configuration, persistent}
use compaction.Machine.Installing.{finish_install, install_log, adopt_config, respond, call}
use compaction.Machine.Sending.{SnapshotToSend}

-- The action leaves the snapshots as they are.
record IsApart {A : Type 0} (m : Exec Node A) : Type 0 where
  at : (n : Node) → (m n).1.snapshot_manager ≡ n.snapshot_manager

IsApart-bind :
    {A B : Type 0} (m : Exec Node A) (f : A → Exec Node B)
    → IsApart m
    → ((a : A) → IsApart (f a))
    → IsApart (m >>= f)
IsApart-bind {A} {B} m f hm hf = record { at = λ n. go n (m n) (hm.at n) }
  where
    go :
        (n : Node) (x : Result A × Node)
        → x.1.snapshot_manager ≡ n.snapshot_manager
        → (resume f x).1.snapshot_manager ≡ n.snapshot_manager
    go n (ok a, n') e = (hf a).at n' ∙ e
    go n (err x, n') e = e

module _ {A : Type 0} where
  IsApart-return : (a : A) → IsApart {A = A} (return a)
  IsApart-return a = record { at = λ n. refl }

  IsApart-log : (m : Exec LogManager A) → IsApart (log m)
  IsApart-log m = record { at = λ n. refl }

  IsApart-persistent : (m : Exec PersistentState A) → IsApart (persistent m)
  IsApart-persistent m = record { at = λ n. refl }

  IsApart-volatile : (m : Exec VolatileState A) → IsApart (volatile m)
  IsApart-volatile m = record { at = λ n. refl }

  IsApart-configuration : (m : Exec ConfigManager A) → IsApart (configuration m)
  IsApart-configuration m = record { at = λ n. refl }

  IsApart-if : (b : Bool) (m k : Exec Node A) → IsApart m → IsApart k → IsApart (if b then m else k)
  IsApart-if true m k hm hk = hm
  IsApart-if false m k hm hk = hk

IsApart-call : (r : Result (Unit {0})) → IsApart (call r)
IsApart-call r = record { at = λ n. refl }

ruleset apart_rules = (
  IsApart-bind, IsApart-return, IsApart-log, IsApart-persistent, IsApart-volatile,
  IsApart-configuration, IsApart-if, IsApart-call,
)

install_log-IsApart :
    (f : Buffer → Result (Unit {0})) (i t : ℕ) (b : Buffer) → IsApart (install_log f i t b)
unfolding install_log
install_log-IsApart f i t b = search apart_rules depth 14

adopt_config-IsApart : (c : ClusterConfig) → IsApart (adopt_config c)
adopt_config-IsApart c = search apart_rules depth 9

-- What the receiver saves.
abbrev pub snapshot_of : SnapshotToSend → Snapshot
snapshot_of s = record {
  last_included_index = s.last_included_index;
  last_included_term = s.last_included_term;
  bytes = s.bytes;
  config = s.config;
}

abbrev pub kept_snapshot : InstallSnapshotRequest → Buffer → Snapshot
kept_snapshot r b = record {
  last_included_index = r.last_included_index;
  last_included_term = r.last_included_term;
  bytes = b;
  config = r.config;
}

save_snapshot_lem :
    (d : Snapshot) (m : SnapshotManager)
    → m.initialized ≡ true
    → m.snapshot_storage.is_open_flag ≡ true
    → save_snapshot d m ≡ (
      ok tt,
      record {
        cached_index = d.last_included_index;
        cached_term = d.last_included_term;
        initialized = true;
        snapshot_storage = record m.snapshot_storage { snapshot = some d };
      },
    )
unfolding save_snapshot
save_snapshot_lem d m i o = ground (arith, i, o)

rest-IsApart :
    (f : Buffer → Result (Unit {0})) (r : InstallSnapshotRequest) (b : Buffer)
    → IsApart (do
      install_log f r.last_included_index r.last_included_term b
      adopt_config r.config
      respond true)
rest-IsApart f r b = search (apart_rules, install_log-IsApart, adopt_config-IsApart) depth 12

pub finish_install-saves :
    (f : Buffer → Result (Unit {0})) (r : InstallSnapshotRequest) (b : Buffer) (n : Node)
    → n.snapshot_manager.initialized ≡ true
    → n.snapshot_manager.snapshot_storage.is_open_flag ≡ true
    → (finish_install f r b n).1.snapshot_manager.snapshot_storage.snapshot
      ≡ some (kept_snapshot r b)
unfolding finish_install
finish_install-saves f r b n i o =
    rw (save_snapshot_lem (kept_snapshot r b) n.snapshot_manager i o)
      (ap (λ (m : SnapshotManager). m.snapshot_storage.snapshot) ((rest-IsApart f r b).at _))
