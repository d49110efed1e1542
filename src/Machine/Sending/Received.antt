-- ===== src/Machine/Sending/Received.antt =====
-- What a follower has after it received the chunks that `sendSnapshot` of StateMachine.ts sends.
use compaction.Prelude.{
  concat, append_nil, concat-snoc, ap, ℕ, ◌+◌, ◌≤◌, ◌≡◌, refl, sym, ◌∙◌, arith, Option, some, true,
  false, not, ◌||◌, List, [], ◌∷◌, ◌++◌, ltb, ◌==◌, length, take, Bool-cases, inl, inr,
}
use compaction.Prelude.Exec.{Exec, Result, ok, gets, modify, resume, ◌>>=◌, ◌>>◌}
use compaction.Storage.Meta.{NodeId}
use compaction.Storage.Snapshot.{Buffer}
use compaction.State.Persistent.{get_current_term}
use compaction.Machine.{
  Node, follower, InstallSnapshotRequest, InstallSnapshotResponse, SnapshotInstallSession,
  same_state,
}
use compaction.Machine.Roles.{become_follower}
use compaction.Machine.Installing.{
  session_for, push_chunk, take_in, finish_install, acknowledge_leader, handle_install_snapshot,
}
use compaction.Machine.Ready.{IsReady, become_follower_done}
use compaction.Machine.Ready.Candidacy.{term_of}
use compaction.Machine.Steps.Rules.{unmoved}
use compaction.Machine.Ready.Runs.{StaysReady-Allows}
use compaction.Machine.{start_election_timer}
use compaction.Machine.Sending.{SnapshotToSend}

-- The session of a follower that has `o` bytes in the chunks.
abbrev pub session_of : NodeId → SnapshotToSend → List Buffer → ℕ → SnapshotInstallSession
session_of self s cs o = record {
  leader_id = self;
  term = s.term;
  last_included_index = s.last_included_index;
  last_included_term = s.last_included_term;
  config = s.config;
  chunks = cs;
  received_bytes = o;
}

-- A usable follower of the sender's term that can save snapshots.
pub record IsPrepared (s : SnapshotToSend) (n : Node) : Type 0 where
  pub ready : IsReady n
  pub initialized : n.snapshot_manager.initialized ≡ true
  pub is_open : n.snapshot_manager.snapshot_storage.is_open_flag ≡ true
  pub role : n.current_state ≡ follower
  pub term : n.persistent_state.current_term ≡ s.term

-- It has the first `o` bytes.
pub record IsReceiving (self : NodeId) (s : SnapshotToSend) (o : ℕ) (n : Node) : Type 0 where
  pub prepared : IsPrepared s n
  pub chunks : List Buffer
  pub session : n.install_snapshot_session ≡ some (session_of self s chunks o)
  pub joined : concat chunks ≡ take o s.bytes

pub pushed :
    (self : NodeId) (s : SnapshotToSend) (cs : List Buffer) (o : ℕ) (b : Buffer)
    → (ds : List Buffer) × (push_chunk b (session_of self s cs o)
        ≡ session_of self s ds (o + length b))
      × (concat ds ≡ concat cs ++ b)
pushed self s cs o [] =
    let e : o + 0 ≡ o = omega arith in (cs, rw e refl, sym (append_nil (concat cs)))
pushed self s cs o (x ∷ b) = (cs ++ (x ∷ b) ∷ [], refl, concat-snoc cs (x ∷ b))

-- The rest of the handler once the leader is acknowledged.
abbrev pub acknowledged :
    (Buffer → Result (Unit {0}))
    → ℕ
    → NodeId
    → InstallSnapshotRequest
    → Exec Node InstallSnapshotResponse
acknowledged f now self r = do
  modify (λ n. record n { last_leader_contact_at = now })
  session ← gets (λ n. session_for self r n.install_snapshot_session)
  take_in f r session

pub handled :
    (f : Buffer → Result (Unit {0})) (now : ℕ) (self : NodeId) (r : InstallSnapshotRequest)
    (n a : Node)
    → n.persistent_state.initialized ≡ true
    → n.persistent_state.current_term ≤ r.term
    → acknowledge_leader self r n.persistent_state.current_term n ≡ (ok tt, a)
    → handle_install_snapshot f now self r n ≡ acknowledged f now self r a
unfolding handle_install_snapshot
handled f now self r n a i le ack =
    let current : ltb r.term n.persistent_state.current_term ≡ false = ground arith in
    rw (term_of n.persistent_state i, current)
      (ap (λ (x : Result (Unit {0}) × Node). resume (λ u. acknowledged f now self r) x) ack)

-- The first chunk makes a follower of the term, or finds one.
snapshot_manager-become_follower :
    (t : ℕ) (l : Option NodeId) (n : Node)
    → (become_follower t l n).1.snapshot_manager ≡ n.snapshot_manager
unfolding become_follower get_current_term
snapshot_manager-become_follower t l n = ground arith

pub ack_same :
    (self : NodeId) (r : InstallSnapshotRequest) (n : Node)
    → n.current_state ≡ follower
    → n.persistent_state.current_term ≡ r.term
    → acknowledge_leader self r n.persistent_state.current_term n ≡ (
      ok tt,
      record n { current_leader = some self; effects = n.effects ++ start_election_timer ∷ [] },
    )
ack_same self r n f e =
    let same : ltb n.persistent_state.current_term r.term ≡ false = ground arith in
    rw (f, same) refl

pub follower_kept :
    (s : SnapshotToSend) (self : NodeId) (n : Node)
    → IsPrepared s n
    → IsPrepared s
        (record n { current_leader = some self; effects = n.effects ++ start_election_timer ∷ [] })
follower_kept s self n h = record {
  ready =
      StaysReady-Allows.carries.frame n _ (unmoved n _ refl refl refl refl refl refl refl) h.ready;
  initialized = h.initialized;
  is_open = h.is_open;
  role = h.role;
  term = h.term;
}

module _ (s : SnapshotToSend) (self : NodeId) (r : InstallSnapshotRequest) (same : r.term ≡ s.term)
    (n : Node) (ready : IsReady n) (i : n.snapshot_manager.initialized ≡ true)
    (o : n.snapshot_manager.snapshot_storage.is_open_flag ≡ true)
    (le : n.persistent_state.current_term ≤ s.term) where
  retired-IsPrepared : IsPrepared s (become_follower r.term (some r.leader_id) n).1
  retired-IsPrepared =
      let done = (become_follower_done r.term (some r.leader_id) n ready).1 in
      let kept = snapshot_manager-become_follower r.term (some r.leader_id) n in
      record {
        ready = done.ready;
        initialized = rw kept i;
        is_open = rw kept o;
        role = done.role;
        term = ground (arith, done.term_adopted);
      }

  pub ack_first :
      (a : Node) × (acknowledge_leader self r n.persistent_state.current_term n ≡ (ok tt, a))
      × IsPrepared s a
  ack_first =
      elim (Bool-cases
        (ltb n.persistent_state.current_term r.term || not (same_state n.current_state follower))) [
          | inl moves ↦ (
            (become_follower r.term (some r.leader_id) n).1,
            rw moves ((become_follower_done r.term (some r.leader_id) n ready).0),
            retired-IsPrepared,
          )
          | inr stays ↦
              let f : n.current_state ≡ follower = ground arith in
              let e : n.persistent_state.current_term ≡ r.term = ground arith in
              (
                _,
                ack_same self r n f e,
                follower_kept s self n (record {
                  ready = ready;
                  initialized = i;
                  is_open = o;
                  role = f;
                  term = e ∙ same;
                }),
              )
        ]

-- A chunk of the session, before the last one.
abbrev pub with_session : ℕ → SnapshotInstallSession → Node → Node
with_session now w a = record a { last_leader_contact_at = now; install_snapshot_session = some w }

pub chunk_kept :
    (f : Buffer → Result (Unit {0})) (now : ℕ) (self : NodeId) (s : SnapshotToSend)
    (cs : List Buffer) (r : InstallSnapshotRequest) (a : Node)
    → session_for self r a.install_snapshot_session ≡ some (session_of self s cs r.offset)
    → a.persistent_state.initialized ≡ true
    → r.done ≡ false
    → (acknowledged f now self r a).1
      ≡ with_session now (push_chunk r.bytes (session_of self s cs r.offset)) a
chunk_kept f now self s cs r a e i d =
    let here : (r.offset == r.offset) ≡ true = ground arith in
    rw (e, here, d, term_of a.persistent_state i) refl

pub chunk_last :
    (f : Buffer → Result (Unit {0})) (now : ℕ) (self : NodeId) (s : SnapshotToSend)
    (cs : List Buffer) (r : InstallSnapshotRequest) (a : Node)
    → session_for self r a.install_snapshot_session ≡ some (session_of self s cs r.offset)
    → r.done ≡ true
    → acknowledged f now self r a
      ≡ finish_install f r
          (concat (push_chunk r.bytes (session_of self s cs r.offset)).chunks)
          (with_session now (push_chunk r.bytes (session_of self s cs r.offset)) a)
chunk_last f now self s cs r a e d =
    let here : (r.offset == r.offset) ≡ true = ground arith in rw (e, here, d) refl
