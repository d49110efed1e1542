-- ===== src/Machine/Messages/Tasks.antt =====
-- The sending tasks of StateMachine.ts, whatever is handled while they wait, in the relations of
-- Machine/Steps.
use compaction.Prelude.{
  ℕ, zero, suc, Option, none, some, Bool, true, false, List, ltb, length, ◌==◌, ◌||◌, ◌&&◌, not,
}
use compaction.Prelude.Exec.{Exec, Result, return, gets}
use compaction.Storage.Meta.{NodeId}
use compaction.Storage.Snapshot.{Snapshot}
use compaction.State.Leader.{LeaderState}
use compaction.Log.{LogEntry}
use compaction.Machine.{
  ok, Node, RequestVoteRequest, RequestVoteResponse, AppendEntriesRequest, AppendEntriesResponse,
  InstallSnapshotRequest, InstallSnapshotResponse,
}
use compaction.Machine.Runs.{Event, run}
use compaction.Machine.Leading.{
  Outgoing, nothing, append, send_snapshot, prepare_append, batch, build_append, prepare_for,
  leading, handle_append_entries_response,
}
use compaction.Machine.Sending as Sending
use compaction.Machine.Sending.{
  SnapshotToSend, with_term, snapshot_to_send, complete, should_abort, weigh, send_chunks, send_all,
  chunk_request, is_last, next_offset,
}
use compaction.Machine.Messages.{
  handle_request_vote_response, handle_pre_vote_response, send_pre_vote, send_request_vote,
  send_outgoing, send_append_entries,
}
use compaction.Machine.Voting.{Later, Advances, Advances-Allows, Advances-AllowsElection}
use compaction.Machine.Steps.{Allows, Within, Anyone}
use compaction.Machine.Steps.Rules.{
  Within-bind, Within-gets, Within-if, Within-return, Within-follow, Within-log_read,
}
use compaction.Machine.Steps.Reads.{get_term_at_index_same, within_rules}
use compaction.Machine.Steps.Transitions.{try-Within}
use compaction.Machine.Steps.Elections.{handle_pre_vote_response-Within}
use compaction.Machine.Steps.Answers.{AllowsElection, handle_request_vote_response-Within}
use compaction.Machine.Steps.Leaders.{
  handle_append_entries_response-Within, tracked-Within, on_leader_state-Within,
}
use compaction.Machine.Steps.Runs.{run-AllowsElection}

module _ (R : Node → Node → Type 0) (S : Allows R) where
  with_term-Within : (o : Option Snapshot) → Within R Anyone (with_term o)
  with_term-Within none = search within_rules
  with_term-Within (some s) = search within_rules

  snapshot_to_send-Within : Within R Anyone snapshot_to_send
  unfolding snapshot_to_send
  snapshot_to_send-Within = search (within_rules, with_term-Within)

  complete-Within : (p : NodeId) (s : SnapshotToSend) (b : Bool) → Within R Anyone (complete p s b)
  complete-Within p s true = search (within_rules, tracked-Within)
  complete-Within p s false = search within_rules

  weigh-Within :
      (p : NodeId) (s : SnapshotToSend) (d : Bool) (r : InstallSnapshotResponse)
      (o : Option LeaderState)
      → Within R Anyone (weigh p s d r o)
  weigh-Within p s d r none = search within_rules
  weigh-Within p s d r (some l) = search (within_rules, Within-follow, complete-Within) depth 12

  pub should_abort-Within :
      (p : NodeId) (s : SnapshotToSend) (d : Bool) (r : InstallSnapshotResponse)
      → Within R Anyone (should_abort p s d r)
  unfolding should_abort
  should_abort-Within p s d r = search (within_rules, weigh-Within)

  leading-Within :
      {A : Type 0} (s : LeaderState) (f : Exec LeaderState A) → Within R Anyone (leading s f)
  leading-Within s f = on_leader_state-Within R S (some s) f

  batch-Within : (bytes : LogEntry → ℕ) (next : ℕ) → Within R Anyone (batch bytes next)
  unfolding batch
  batch-Within bytes next = search within_rules depth 12

  build-Within : (bytes : LogEntry → ℕ) (next : ℕ) → Within R Anyone (build_append bytes next)
  build-Within bytes next =
      search (within_rules, batch-Within, Within-log_read, get_term_at_index_same) depth 14

  prepare-Within :
      (bytes : LogEntry → ℕ) (p : NodeId) (o : Option LeaderState)
      → Within R Anyone (prepare_for bytes p o)
  prepare-Within bytes p none = search within_rules
  prepare-Within bytes p (some s) = search (within_rules, leading-Within, build-Within) depth 12

  prepare_append-Within :
      (bytes : LogEntry → ℕ) (p : NodeId) → Within R Anyone (prepare_append bytes p)
  unfolding prepare_append
  prepare_append-Within bytes p = search (within_rules, prepare-Within)

  module _ (rpc : NodeId → InstallSnapshotRequest → Exec Node InstallSnapshotResponse)
      (stays : (p : NodeId) (r : InstallSnapshotRequest) → Within R Anyone (rpc p r)) (size : ℕ)
      (p : NodeId) where
    send_chunks-Within :
        (k : ℕ) (s : SnapshotToSend) (o : ℕ) → Within R Anyone (send_chunks k size rpc p s o)
    unfolding send_chunks
    send_chunks-Within zero s o = search within_rules
    send_chunks-Within (suc k) s o =
        Within-if R Anyone S.carries
          (not (ltb o (length s.bytes) || (length s.bytes == 0 && o == 0))) (return tt) _
          (Within-return R Anyone S.carries tt)
          (Within-bind R Anyone S.carries (gets (λ n. n.node_id)) _
            (Within-gets R Anyone S.carries _)
            (λ self.
              Within-bind R Anyone S.carries (rpc p (chunk_request size self s o)) _
                (stays p (chunk_request size self s o))
                (λ response.
                  Within-bind R Anyone S.carries (should_abort p s (is_last size s o) response) _
                    (should_abort-Within p s (is_last size s o) response)
                    (λ abort.
                      Within-if R Anyone S.carries (abort || is_last size s o) (return tt) _
                        (Within-return R Anyone S.carries tt)
                        (send_chunks-Within k s (next_offset size s o))))))

    send_all-Within : (o : Option SnapshotToSend) → Within R Anyone (send_all size rpc p o)
    send_all-Within none = search within_rules
    send_all-Within (some s) =
        try-Within R Anyone S.carries _ (send_chunks-Within (suc (length s.bytes)) s 0)

    send_snapshot-Within : Within R Anyone (Sending.send_snapshot size rpc p)
    unfolding Sending.send_snapshot
    send_snapshot-Within = search (within_rules, snapshot_to_send-Within, send_all-Within)

  pub send_append_entries-Within :
      (append_rpc : NodeId → AppendEntriesRequest → Exec Node AppendEntriesResponse)
      (snapshot_rpc : NodeId → InstallSnapshotRequest → Exec Node InstallSnapshotResponse)
      (between : NodeId → Exec Node Unit) (bytes : LogEntry → ℕ) (size : ℕ) (p : NodeId)
      → ((p : NodeId) (r : AppendEntriesRequest) → Within R Anyone (append_rpc p r))
      → ((p : NodeId) (r : InstallSnapshotRequest) → Within R Anyone (snapshot_rpc p r))
      → ((p : NodeId) → Within R Anyone (between p))
      → Within R Anyone (send_append_entries append_rpc snapshot_rpc between bytes size p)
  send_append_entries-Within a s between bytes size p ha hs hb = try-Within R Anyone S.carries _ (
      Within-bind R Anyone S.carries (prepare_append bytes p)
        (send_outgoing a s between bytes size p) (prepare_append-Within bytes p) outgoing)
    where
      outgoing : (o : Outgoing) → Within R Anyone (send_outgoing a s between bytes size p o)
      outgoing nothing = Within-return R Anyone S.carries tt
      outgoing send_snapshot =
          Within-bind R Anyone S.carries (between p) (λ u. Sending.send_snapshot size s p) (hb p)
            (λ u. send_snapshot-Within s hs size p)
      outgoing (append r) =
          Within-bind R Anyone S.carries (a p r) (λ x. handle_append_entries_response p x) (ha p r)
            (λ x. handle_append_entries_response-Within R S p x)

module _ (R : Node → Node → Type 0) (S : Allows R) (E : AllowsElection R)
    (rpc : NodeId → RequestVoteRequest → Exec Node RequestVoteResponse)
    (stays : (p : NodeId) (r : RequestVoteRequest) → Within R Anyone (rpc p r)) where
  send_pre_vote-Within :
      (p : NodeId) (r : RequestVoteRequest) → Within R Anyone (send_pre_vote rpc p r)
  send_pre_vote-Within p r = try-Within R Anyone S.carries _ (
      Within-bind R Anyone S.carries (rpc p r) (λ x. handle_pre_vote_response p x) (stays p r)
        (λ x. handle_pre_vote_response-Within R S p x))

  send_request_vote-Within :
      (p : NodeId) (r : RequestVoteRequest) → Within R Anyone (send_request_vote rpc p r)
  send_request_vote-Within p r = try-Within R Anyone S.carries _ (
      Within-bind R Anyone S.carries (rpc p r) (λ x. handle_request_vote_response p x) (stays p r)
        (λ x. handle_request_vote_response-Within R S E p x))

-- A call of a peer that answers or throws, after the node has handled some events.
abbrev pub waiting :
    {Q A : Type 0}
    → (NodeId → Q → Node → Result A)
    → (NodeId → Q → Node → List Event)
    → NodeId
    → Q
    → Exec Node A
waiting answer heard peer request n = (answer peer request n, run n (heard peer request n))

-- The node handles some events.
abbrev pub handling : (NodeId → Node → List Event) → NodeId → Exec Node Unit
handling heard peer n = (ok tt, run n (heard peer n))

-- The three kinds of tasks: a vote request, a pre-vote request, and entries or a snapshot.
pub data Task : Type 0 where
  vote pre_vote : NodeId → RequestVoteRequest → Task
  entries : ℕ → NodeId → Task

module _ (answer_vote : NodeId → RequestVoteRequest → Node → Result RequestVoteResponse)
    (heard_vote : NodeId → RequestVoteRequest → Node → List Event)
    (answer_append : NodeId → AppendEntriesRequest → Node → Result AppendEntriesResponse)
    (heard_append : NodeId → AppendEntriesRequest → Node → List Event)
    (answer_snapshot : NodeId → InstallSnapshotRequest → Node → Result InstallSnapshotResponse)
    (heard_snapshot : NodeId → InstallSnapshotRequest → Node → List Event)
    (heard_between : NodeId → Node → List Event) (bytes : LogEntry → ℕ) where
  abbrev pub perform : Task → Exec Node Unit
  perform (vote p r) = send_request_vote (waiting answer_vote heard_vote) p r
  perform (pre_vote p r) = send_pre_vote (waiting answer_vote heard_vote) p r
  perform (entries size p) =
      send_append_entries (waiting answer_append heard_append)
        (waiting answer_snapshot heard_snapshot) (handling heard_between) bytes size p

  module _ (R : Node → Node → Type 0) (S : Allows R) (E : AllowsElection R) where
    waiting-Within :
        {Q A : Type 0} (a : NodeId → Q → Node → Result A) (h : NodeId → Q → Node → List Event)
        (p : NodeId) (q : Q)
        → Within R Anyone (waiting a h p q)
    waiting-Within a h p q = record { at = λ n u. (run-AllowsElection R S E n (h p q n), tt) }

    perform-Within : (t : Task) → Within R Anyone (perform t)
    perform-Within (vote p r) =
        send_request_vote-Within R S E (waiting answer_vote heard_vote)
          (waiting-Within answer_vote heard_vote) p r
    perform-Within (pre_vote p r) =
        send_pre_vote-Within R S E (waiting answer_vote heard_vote)
          (waiting-Within answer_vote heard_vote) p r
    perform-Within (entries size p) =
        send_append_entries-Within R S (waiting answer_append heard_append)
          (waiting answer_snapshot heard_snapshot) (handling heard_between) bytes size p
          (waiting-Within answer_append heard_append)
          (waiting-Within answer_snapshot heard_snapshot)
          (λ q. record { at = λ n u. (run-AllowsElection R S E n (heard_between q n), tt) })

  -- Whatever the peers answer or throw, and whatever events the node handles while a task waits for
  -- an answer, or before it starts to send a snapshot, a task that sends a vote request, a pre-vote
  -- request, entries or a snapshot leaves a term that has not fallen and a vote that is neither
  -- withdrawn nor changed within its term.
  pub perform-Later :
      (t : Task) (n : Node) → Later n.persistent_state (perform t n).1.persistent_state
  perform-Later t n =
      ((perform-Within Advances Advances-Allows Advances-AllowsElection t).at n tt).0
