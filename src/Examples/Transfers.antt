-- ===== src/Examples/Transfers.antt =====
-- A snapshot of three bytes in chunks of two, from StateMachine.ts to StateMachine.ts.
use compaction.Prelude.{◌≡◌, List, refl, some, [], ◌∷◌, arith, true, map}
use compaction.Prelude.Exec.{Exec, Result, ok}
use compaction.Examples.{trio}
use compaction.Examples.Nodes.{node_b, node_b-IsReady}
use compaction.Storage.Meta.{NodeId}
use compaction.Storage.Snapshot.{Buffer, Snapshot}
use compaction.Storage.Snapshot as SnapshotStore
use compaction.Snapshot as Snapshots
use compaction.Machine.{Node, InstallSnapshotRequest, InstallSnapshotResponse}
use compaction.Prelude.{false}
use compaction.Prelude.Exec.{err, raft}
use compaction.Examples.Nodes.{ask_b}
use compaction.Machine.Elections.{answer}
use compaction.Machine.Voting.{Later}
use compaction.Machine.Messages.Tasks.{waiting, perform, vote, perform-Later}
use compaction.Machine.Runs.{Event, run, install_snapshot, election_timeout, heartbeat, stopping}
use compaction.Machine.Sending.{SnapshotToSend, send_chunks, send_snapshot}
use compaction.Machine.Sending.Rounds.{send_chunks_rounds}
use compaction.Machine.Sending.Exchange.{exchange}
use compaction.Machine.Sending.Transfer.{
  saved, in_term_of, loaded, requests_for, sent_snapshot_saved,
}
use compaction.Machine.Roles.{try_ignoring}
use compaction.Snapshot.{load_snapshot}

abbrev three_bytes : SnapshotToSend
three_bytes = record {
  term = 2;
  last_included_index = 2;
  last_included_term = 1;
  bytes = 7 ∷ 8 ∷ 9 ∷ [];
  config = trio;
}

abbrev accept : NodeId → InstallSnapshotRequest → Exec Node InstallSnapshotResponse
accept peer r n = (ok (record { term = r.term; success = true }), n)

send_chunks_rounds_example :
    send_chunks 4 2 accept "b" three_bytes 0 node_b
    ≡ send_chunks 9 2 accept "b" three_bytes 0 node_b
send_chunks_rounds_example =
    send_chunks_rounds 2 accept "b" three_bytes (omega arith) 4 9 0 node_b (omega arith)
      (omega arith)

abbrev accepted : NodeId → InstallSnapshotRequest → Node → Result InstallSnapshotResponse
accepted peer r n = ok (record { term = r.term; success = true })

abbrev saving : Node
saving = record node_b {
  snapshot_manager = record (Snapshots.new (record SnapshotStore.empty { is_open_flag = true })) {
    initialized = true;
  };
}

abbrev loads : Buffer → Result (Unit {0})
loads bytes = ok tt

abbrev three_saved : Snapshot
three_saved = record {
  last_included_index = 2;
  last_included_term = 1;
  bytes = 7 ∷ 8 ∷ 9 ∷ [];
  config = trio;
}

-- A leader that has the snapshot, and meanwhile handles a heartbeat.
abbrev sender : Node
sender = record node_b {
  node_id = "a";
  snapshot_manager =
      record (Snapshots.new (record { snapshot = some three_saved; is_open_flag = true })) {
        initialized = true;
        cached_index = 2;
        cached_term = 1;
      };
}

abbrev busy : NodeId → InstallSnapshotRequest → Node → List Event
busy peer r n = heartbeat ∷ []

sent_snapshot_saved_example :
    (send_snapshot 2 (waiting accepted busy) "b" sender
      ≡ try_ignoring
          (exchange
            (waiting accepted busy)
            "b"
            (in_term_of sender three_saved)
            (requests_for 2 sender three_saved))
          (loaded sender sender.snapshot_manager))
    × (saved (
          run saving
            (map (λ r. install_snapshot loads 7 "a" r) (requests_for 2 sender three_saved)))
        ≡ some three_saved)
unfolding load_snapshot
sent_snapshot_saved_example =
    sent_snapshot_saved accepted busy loads 7 2 "b" three_saved sender.snapshot_manager sender
      saving (omega arith) refl refl
      (record {
        persistent = refl;
        meta_open = refl;
        configured = refl;
        config_open = refl;
        managed = node_b-IsReady.managed;
      })
      refl refl (omega arith)

perform-Later_example :
    Later node_b.persistent_state
      (perform
        (λ p r n. ok (answer 9 false))
        (λ p r n. election_timeout ∷ heartbeat ∷ [])
        (λ p r n. err raft)
        (λ p r n. [])
        accepted
        (λ p r n. stopping ∷ [])
        (λ p n. heartbeat ∷ [])
        (λ e. 100)
        (vote "a" ask_b)
        node_b).1.persistent_state
perform-Later_example =
    perform-Later (λ p r n. ok (answer 9 false)) (λ p r n. election_timeout ∷ heartbeat ∷ [])
      (λ p r n. err raft) (λ p r n. []) accepted (λ p r n. stopping ∷ []) (λ p n. heartbeat ∷ [])
      (λ e. 100) (vote "a" ask_b) node_b
