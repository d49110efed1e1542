-- ===== src/Examples/Answers.antt =====
-- Vote requests, batches and snapshots on which the theorems about answers apply.
use compaction.Storage.Meta.{NodeId}
use compaction.Machine.Elections.Alone.{alone_stuck}
use compaction.Machine.Ready.{IsReady}
use compaction.State.Leader.{new}
use compaction.Prelude.{◌++◌, ◌≤◌, length, ◌&&◌, ℕ, ◌≡◌, refl, List, [], ◌∷◌, true, arith}
use compaction.Prelude.Exec.{ok}
use compaction.Examples.{member, blank_entry, trio}
use compaction.Examples.Nodes.{node_b, node_b-IsReady, ask_b}
use compaction.Log.{LogEntry}
use compaction.Storage.Snapshot as SnapshotStore
use compaction.Storage.Snapshot.{Snapshot}
use compaction.Snapshot as Snapshots
use compaction.Snapshot.{SnapshotManager, save_snapshot}
use compaction.Snapshot.Saving.{Holds, restarted, save_snapshot-Holds}
use compaction.Machine.{RequestVoteRequest, Node, candidate, start_election_timer}
use compaction.Machine.Elections.{handle_election_timeout, answer, handle_request_vote}
use compaction.Machine.Elections.Answers.{
  vote_answered, pre_vote_answered, both_vote, no_leader, current_log, free_vote,
}

vote_answered_example :
    (handle_request_vote 7 ask_b node_b).0
    ≡ ok (answer 5 (both_vote ask_b node_b && (free_vote ask_b node_b && current_log ask_b node_b)))
vote_answered_example = vote_answered 7 ask_b node_b node_b-IsReady refl

abbrev probe_b : RequestVoteRequest
probe_b = record ask_b { term = 1; pre_vote = true }

pre_vote_answered_example : handle_request_vote 7 probe_b node_b ≡ (
  ok (answer 0 (both_vote probe_b node_b && (no_leader 7 node_b && current_log probe_b node_b))),
  node_b,
)
pre_vote_answered_example = pre_vote_answered 7 probe_b node_b node_b-IsReady refl

-- Entries of 300 KB, of which one fits.
abbrev large : LogEntry → ℕ
large e = 300000

abbrev three : List LogEntry
three = blank_entry 1 1 ∷ blank_entry 2 1 ∷ blank_entry 3 1 ∷ []

abbrev taken : Snapshot
taken = record {
  last_included_index = 2;
  last_included_term = 1;
  bytes = 7 ∷ 8 ∷ [];
  config = trio;
}

abbrev archive : SnapshotManager
archive = record (Snapshots.new (record SnapshotStore.empty { is_open_flag = true })) {
  initialized = true;
}

save_snapshot-Holds_example :
    ((save_snapshot taken archive).0 ≡ ok tt)
    × Holds taken (save_snapshot taken archive).1
    × Holds taken (restarted (save_snapshot taken archive).1)
save_snapshot-Holds_example = save_snapshot-Holds taken archive refl refl (omega arith)

-- "b" as the only voter.
abbrev lone_b : Node
lone_b = record node_b {
  config_manager = record node_b.config_manager {
    active_config = record { voters = member "b" ∷ []; learners = [] };
  };
}

lone_b-IsReady : IsReady lone_b
lone_b-IsReady = record {
  persistent = refl;
  meta_open = refl;
  configured = refl;
  config_open = refl;
  managed = node_b-IsReady.managed;
}

alone_stuck_example :
    (n' : Node) × (handle_election_timeout lone_b ≡ (ok tt, n'))
    × (n'.current_state ≡ candidate)
    × (n'.votes_needed ≤ length n'.votes_received)
    × (n'.effects ≡ lone_b.effects ++ start_election_timer ∷ [])
alone_stuck_example =
    alone_stuck lone_b lone_b-IsReady (record { address = "b"; only = refl }) refl refl

abbrev voters_bc : List NodeId
voters_bc = "b" ∷ "c" ∷ []
