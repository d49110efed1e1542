-- ===== src/Machine/Sending/Transfer.antt =====
-- What the requests of `sendSnapshot` of StateMachine.ts make of the node that handles them.
use compaction.Prelude.{
  subst, ℕ, zero, suc, ◌+◌, ◌-◌, ◌<◌, ◌≤◌, ◌≡◌, refl, sym, ap, ◌∙◌, arith, Option, some, Bool, true,
  false, List, [], ◌∷◌, ◌++◌, ◌==◌, length, take, concat, take-all, take-drop, length-take-drop,
  if◌then◌else◌, eq_iff, str_eq, map,
}
use compaction.Prelude.Exec.{Result, ok}
use compaction.Storage.Meta.{NodeId}
use compaction.Storage.Snapshot.{Buffer, Snapshot}
use compaction.Machine.{
  start_election_timer, Node, InstallSnapshotResponse, InstallSnapshotRequest,
  SnapshotInstallSession,
}
use compaction.Machine.Installing.{session_for, push_chunk, handle_install_snapshot}
use compaction.Machine.Ready.{IsReady}
use compaction.Machine.Ready.Runs.{StaysReady-Allows}
use compaction.Machine.Steps.Rules.{unmoved}
use compaction.Machine.Runs.{Event, step, run, install_snapshot}
use compaction.Machine.Sending.{
  SnapshotToSend, chunk_request, is_last, next_offset, send_snapshot, snapshot_to_send,
}
use compaction.Machine.Sending.Exchange.{chunk_requests, exchange, send_snapshot-exchange}
use compaction.Machine.Messages.Tasks.{waiting}
use compaction.Machine.Roles.{try_ignoring}
use compaction.Machine.Leadership.Elected.{get_current_term_lem}
use compaction.Snapshot.{SnapshotManager, load_snapshot}
use compaction.Machine.Sending.Received.{
  session_of, IsPrepared, IsReceiving, pushed, acknowledged, handled, ack_first, ack_same,
  follower_kept, with_session, chunk_kept, chunk_last,
}
use compaction.Machine.Sending.Installed.{snapshot_of, kept_snapshot, finish_install-saves}

abbrev pub saved : Node → Option Snapshot
saved n = n.snapshot_manager.snapshot_storage.snapshot

module _ (f : Buffer → Result (Unit {0})) (now size : ℕ) (self : NodeId) (s : SnapshotToSend)
    (positive : 0 < size) where
  abbrev arrival : InstallSnapshotRequest → Event
  arrival r = install_snapshot f now self r

  session-IsPrepared :
      (w : SnapshotInstallSession) (a : Node) → IsPrepared s a → IsPrepared s (with_session now w a)
  session-IsPrepared w a h = record {
    ready =
        StaysReady-Allows.carries.frame a _ (unmoved a _ refl refl refl refl refl refl refl)
          h.ready;
    initialized = h.initialized;
    is_open = h.is_open;
    role = h.role;
    term = h.term;
  }

  module _ (o : ℕ) (a : Node) (cs : List Buffer) (h : IsPrepared s a)
      (e : session_for self (chunk_request size self s o) a.install_snapshot_session
        ≡ some (session_of self s cs o))
      (j : concat cs ≡ take o s.bytes) (le : o ≤ length s.bytes) where
    abbrev r : InstallSnapshotRequest
    r = chunk_request size self s o

    joined_next : concat cs ++ r.bytes ≡ take (next_offset size s o) s.bytes
    joined_next =
        let q : o + (next_offset size s o - o) ≡ next_offset size s o = ground arith in
        rw (j, take-drop o (next_offset size s o - o) s.bytes, q) refl

    received_next : o + length r.bytes ≡ next_offset size s o
    received_next =
        let q : o + (next_offset size s o - o) ≤ length s.bytes = ground arith in
        rw (length-take-drop o (next_offset size s o - o) s.bytes q) (ground arith)

    chunk-IsReceiving :
        is_last size s o ≡ false
        → IsReceiving self s (next_offset size s o) (acknowledged f now self r a).1
    chunk-IsReceiving d =
        let (ds, push, join) = pushed self s cs o r.bytes in
        rw (chunk_kept f now self s cs r a e h.ready.persistent d) (record {
          prepared = session-IsPrepared (push_chunk r.bytes (session_of self s cs o)) a h;
          chunks = ds;
          session = rw (push, received_next) refl;
          joined = join ∙ joined_next;
        })

    chunk_saved :
        is_last size s o ≡ true → saved (acknowledged f now self r a).1 ≡ some (snapshot_of s)
    chunk_saved d =
        let (ds, push, join) = pushed self s cs o r.bytes in
        let whole : length s.bytes ≤ next_offset size s o = ground arith in
        let bytes : concat (push_chunk r.bytes (session_of self s cs o)).chunks ≡ s.bytes =
          ap (λ (w : SnapshotInstallSession). concat w.chunks) push
          ∙ join
          ∙ joined_next
          ∙ take-all (next_offset size s o) s.bytes whole in
        rw (chunk_last f now self s cs r a e d) (
          finish_install-saves f r (concat (push_chunk r.bytes (session_of self s cs o)).chunks)
            (with_session now (push_chunk r.bytes (session_of self s cs o)) a) h.initialized
            h.is_open
          ∙ ap (λ b. some (kept_snapshot r b)) bytes)

  session_found :
      (o : ℕ) (n : Node)
      → 0 < o
      → (h : IsReceiving self s o n)
      → session_for self (chunk_request size self s o) n.install_snapshot_session
        ≡ some (session_of self s h.chunks o)
  session_found o n pos h =
      let first : (o == 0) ≡ false = ground arith in
      let own : str_eq self self ≡ true = ground (arith, eq_iff self self) in
      let t : (s.term == s.term) ≡ true = ground arith in
      let i : (s.last_included_index == s.last_included_index) ≡ true = ground arith in
      let l : (s.last_included_term == s.last_included_term) ≡ true = ground arith in
      rw (h.session, first, own, t, i, l) refl

  step_lem :
      (r : InstallSnapshotRequest) (n : Node)
      → step n (arrival r) ≡ (handle_install_snapshot f now self r n).1
  unfolding step
  step_lem r n = refl

  -- The last chunk saves the snapshot, and after another one the rest does.
  abbrev Arrives : List InstallSnapshotRequest → Node → Type 0
  Arrives rest m = saved (run m (map arrival rest)) ≡ some (snapshot_of s)

  after_chunk :
      (b : Bool) (m : Node) (rest : List InstallSnapshotRequest)
      → (b ≡ true → saved m ≡ some (snapshot_of s))
      → (b ≡ false → saved (run m (map arrival rest)) ≡ some (snapshot_of s))
      → saved (run m (map arrival (if b then [] else rest))) ≡ some (snapshot_of s)
  unfolding run
  after_chunk true m rest h k = h refl
  after_chunk false m rest h k = k refl

  rest_saved :
      (k o : ℕ) (n : Node)
      → 0 < o
      → o ≤ length s.bytes
      → length s.bytes < k + o
      → IsReceiving self s o n
      → saved (run n (map arrival (chunk_requests k size self s o))) ≡ some (snapshot_of s)
  unfolding run
  rest_saved zero o n pos le fuel h = absurd (omega arith)
  rest_saved (suc k) o n pos le fuel h =
      let r = chunk_request size self s o in
      let a : Node = record n {
        current_leader = some self;
        effects = n.effects ++ start_election_timer ∷ [];
      } in
      let p = follower_kept s self n h.prepared in
      let e = session_found o n pos h in
      let to : step n (arrival r) ≡ (acknowledged f now self r a).1 =
        step_lem r n
        ∙ ap (λ (x : Result InstallSnapshotResponse × Node). x.1)
            (handled f now self r n a h.prepared.ready.persistent (omega (arith, h.prepared.term))
              (ack_same self r n h.prepared.role h.prepared.term)) in
      let next = (acknowledged f now self r a).1 in
      subst
        (Arrives
          (if is_last size s o then [] else chunk_requests k size self s (next_offset size s o)))
        (sym to)
        (after_chunk (is_last size s o) next (chunk_requests k size self s (next_offset size s o))
          (chunk_saved o a h.chunks p e h.joined le)
          (λ more.
            rest_saved k (next_offset size s o) next (ground arith) (ground arith) (ground arith)
              (chunk-IsReceiving o a h.chunks p e h.joined le more)))

-- After the requests for all of its data the node has saved the snapshot.
chunks_saved :
    (f : Buffer → Result (Unit {0})) (now size : ℕ) (self : NodeId) (s : SnapshotToSend) (n : Node)
    → 0 < size
    → IsReady n
    → n.snapshot_manager.initialized ≡ true
    → n.snapshot_manager.snapshot_storage.is_open_flag ≡ true
    → n.persistent_state.current_term ≤ s.term
    → saved (
        run n (
          map
            (λ r. install_snapshot f now self r)
            (chunk_requests (suc (length s.bytes)) size self s 0)))
      ≡ some (snapshot_of s)
unfolding run
chunks_saved f now size self s n positive ready i opened le =
    let r = chunk_request size self s 0 in
    let (a, ack, p) = ack_first s self r refl n ready i opened le in
    let to : step n (install_snapshot f now self r) ≡ (acknowledged f now self r a).1 =
      step_lem f now size self s positive r n
      ∙ ap (λ (x : Result InstallSnapshotResponse × Node). x.1)
          (handled f now self r n a ready.persistent le ack) in
    subst
      (Arrives f now size self s positive (
        if is_last size s 0
        then []
        else chunk_requests (length s.bytes) size self s (next_offset size s 0)))
      (sym to)
      (after_chunk f now size self s positive (is_last size s 0) (acknowledged f now self r a).1
        (chunk_requests (length s.bytes) size self s (next_offset size s 0))
        (chunk_saved f now size self s positive 0 a [] p refl refl (omega arith))
        (λ more.
          rest_saved f now size self s positive (length s.bytes) (next_offset size s 0)
            (acknowledged f now self r a).1 (ground arith) (ground arith) (ground arith)
            (chunk-IsReceiving f now size self s positive 0 a [] p refl refl (omega arith) more)))

-- The snapshot in the leader's term.
abbrev pub in_term_of : Node → Snapshot → SnapshotToSend
in_term_of l snapshot = record {
  term = l.persistent_state.current_term;
  last_included_index = snapshot.last_included_index;
  last_included_term = snapshot.last_included_term;
  bytes = snapshot.bytes;
  config = snapshot.config;
}

abbrev pub loaded : Node → SnapshotManager → Node
loaded l m = record l { snapshot_manager = m }

-- The requests for all the data of a snapshot in chunks of the size.
abbrev pub requests_for : ℕ → Node → Snapshot → List InstallSnapshotRequest
requests_for size l snapshot =
    chunk_requests (suc (length snapshot.bytes)) size l.node_id (in_term_of l snapshot) 0

snapshot_to_send_lem :
    (l : Node) (snapshot : Snapshot) (m : SnapshotManager)
    → l.persistent_state.initialized ≡ true
    → load_snapshot l.snapshot_manager ≡ (ok (some snapshot), m)
    → snapshot_to_send l ≡ (ok (some (in_term_of l snapshot)), loaded l m)
unfolding snapshot_to_send
snapshot_to_send_lem l snapshot m i e = rw (e, get_current_term_lem l.persistent_state i) refl

-- For chunks of a positive size, a node that is initialized and loads a snapshot sends it, whatever
-- its peer answers or throws and whatever events it handles while it waits, by asking the peer one
-- request after the other from a fixed list until an answer makes it stop; and a usable node that
-- can save snapshots and is not past the sender's term, when it handles the requests of that list
-- one after the other, has saved that same snapshot, whatever the application makes of it.
pub sent_snapshot_saved :
    (answer : NodeId → InstallSnapshotRequest → Node → Result InstallSnapshotResponse)
    (heard : NodeId → InstallSnapshotRequest → Node → List Event) (f : Buffer → Result (Unit {0}))
    (now size : ℕ) (peer : NodeId) (snapshot : Snapshot) (m : SnapshotManager) (l n : Node)
    → 0 < size
    → l.persistent_state.initialized ≡ true
    → load_snapshot l.snapshot_manager ≡ (ok (some snapshot), m)
    → IsReady n
    → n.snapshot_manager.initialized ≡ true
    → n.snapshot_manager.snapshot_storage.is_open_flag ≡ true
    → n.persistent_state.current_term ≤ l.persistent_state.current_term
    → (send_snapshot size (waiting answer heard) peer l
        ≡ try_ignoring
            (exchange
              (waiting answer heard)
              peer
              (in_term_of l snapshot)
              (requests_for size l snapshot))
            (loaded l m))
      × (saved
            (run n (map (λ r. install_snapshot f now l.node_id r) (requests_for size l snapshot)))
          ≡ some snapshot)
sent_snapshot_saved answer heard f now size peer snapshot m l n positive i e ready j opened le = (
  send_snapshot-exchange answer heard size peer (in_term_of l snapshot) positive l (loaded l m)
      (snapshot_to_send_lem l snapshot m i e),
  chunks_saved f now size l.node_id (in_term_of l snapshot) n positive ready j opened le,
)
