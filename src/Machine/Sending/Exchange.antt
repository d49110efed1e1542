-- ===== src/Machine/Sending/Exchange.antt =====
-- The loop of `sendSnapshot` in StateMachine.ts as an exchange of a fixed list of requests.
use compaction.Prelude.{
  ℕ, zero, suc, ◌+◌, ◌<◌, ◌≡◌, refl, sym, ap, ◌∙◌, arith, Option, some, Bool, true, false, ◌&&◌,
  ◌||◌, List, [], ◌∷◌, ltb, ◌==◌, length, if◌then◌else◌,
}
use compaction.Prelude.Exec.{Exec, Result, ok, err, return, resume, ◌>>=◌}
use compaction.Storage.Meta.{NodeId}
use compaction.Config.Manager.{voter, quorum_size}
use compaction.State.Persistent.{get_current_term, get_voted_for, update_term_and_vote}
use compaction.Log.Manager.Queries.{get_last_index, get_last_term}
use compaction.Machine.{Node, RequestVoteRequest, InstallSnapshotRequest, InstallSnapshotResponse}
use compaction.Machine.Roles.{try_ignoring, ignoring, become_follower, stand_for_election, stop}
use compaction.Machine.Elections.{decide_vote, grant_vote}
use compaction.Machine.Runs.{Event, run}
use compaction.Machine.Steps.{Allows}
use compaction.Machine.Steps.Answers.{AllowsElection}
use compaction.Machine.Steps.Runs.{run-AllowsElection}
use compaction.Machine.Messages.Tasks.{waiting, should_abort-Within}
use compaction.Machine.Sending.{
  SnapshotToSend, chunk_request, is_last, next_offset, should_abort, send_chunks, snapshot_to_send,
  send_snapshot,
}

-- The requests that the data is cut into, from an offset.
abbrev pub chunk_requests : ℕ → ℕ → NodeId → SnapshotToSend → ℕ → List InstallSnapshotRequest
chunk_requests zero size self s offset = []
chunk_requests (suc k) size self s offset =
    let rest = chunk_requests k size self s (next_offset size s offset) in
    chunk_request size self s offset ∷ (if is_last size s offset then [] else rest)

-- The peer answers each request in turn, until the node stops because of an answer.
abbrev pub exchange :
    (NodeId → InstallSnapshotRequest → Exec Node InstallSnapshotResponse)
    → NodeId
    → SnapshotToSend
    → List InstallSnapshotRequest
    → Exec Node Unit
exchange rpc peer s [] = return tt
exchange rpc peer s (r ∷ rs) = do
  response ← rpc peer r
  abort ← should_abort peer s r.done response
  if abort then return tt else exchange rpc peer s rs

abbrev SameId : Node → Node → Type 0
SameId n n' = n'.node_id ≡ n.node_id

retired_id : (t : ℕ) (l : Option NodeId) (n : Node) → SameId n (become_follower t l n).1
unfolding become_follower get_current_term
retired_id t l n = ground arith

stood_id : (n : Node) → SameId n (stand_for_election n).1
unfolding stand_for_election voter quorum_size get_current_term update_term_and_vote
stood_id n = ground arith

decided_id : (r : RequestVoteRequest) (n : Node) → SameId n (decide_vote r n).1
unfolding decide_vote grant_vote get_voted_for get_current_term update_term_and_vote get_last_index
    get_last_term
decided_id r n = ground arith

stopped_id : (n : Node) → SameId n (stop n).1
unfolding stop
stopped_id n = refl

SameId-Allows : Allows SameId
SameId-Allows = record {
  carries = record { same = λ n. refl; trans = λ a b c p q. q ∙ p; frame = λ n n' f. f.node_id };
  logs = λ n l k. refl;
  commits = λ n c e r. refl;
  reconfigures = λ n c e r. refl;
  retires = retired_id;
  stands = λ n v. stood_id n;
  decides = λ r n e. decided_id r n;
  stops = stopped_id;
}

SameId-AllowsElection : AllowsElection SameId
SameId-AllowsElection = record { counts = λ n v. refl; leads = λ i n. refl }

else_branch : {A : Type 0} (b : Bool) (x y : A) → b ≡ false → (if b then x else y) ≡ y
else_branch true x y e = absurd (ground (arith, e))
else_branch false x y e = refl

-- Actions that agree on the nodes that an action leads to agree behind it.
bind_agrees :
    {A B : Type 0} (x : Result A × Node) (f g : A → Exec Node B)
    → ((a : A) → f a x.1 ≡ g a x.1)
    → resume f x ≡ resume g x
bind_agrees (ok a, n) f g h = h a
bind_agrees (err e, n) f g h = refl

if_agrees :
    (a b : Bool) (x y : Exec Node (Unit {0})) (z : Exec Node (Unit {0})) (n : Node)
    → (b ≡ true → z n ≡ x n)
    → (b ≡ false → y n ≡ z n)
    → (if a || b then x else y) n ≡ (if a then x else z) n
if_agrees true b x y z n h k = refl
if_agrees false true x y z n h k = sym (h refl)
if_agrees false false x y z n h k = k refl

module _ (answer : NodeId → InstallSnapshotRequest → Node → Result InstallSnapshotResponse)
    (heard : NodeId → InstallSnapshotRequest → Node → List Event) (size : ℕ) (peer : NodeId)
    (s : SnapshotToSend) (positive : 0 < size) where
  abbrev Pending : ℕ → Type 0
  Pending o = (ltb o (length s.bytes) || (length s.bytes == 0 && o == 0)) ≡ true

  abort_id :
      (d : Bool) (r : InstallSnapshotResponse) (n : Node) → SameId n (should_abort peer s d r n).1
  abort_id d r n = ((should_abort-Within SameId SameId-Allows peer s d r).at n tt).0

  heard_id : (n : Node) (es : List Event) → SameId n (run n es)
  heard_id n es = run-AllowsElection SameId SameId-Allows SameId-AllowsElection n es

  -- While data is left, the loop is the exchange of the requests that are left.
  send_chunks-exchange :
      (k o : ℕ) (n : Node)
      → Pending o
      → length s.bytes < k + o
      → send_chunks k size (waiting answer heard) peer s o n
        ≡ exchange (waiting answer heard) peer s (chunk_requests k size n.node_id s o) n
  unfolding send_chunks
  send_chunks-exchange zero o n p f = absurd (ground arith)
  send_chunks-exchange (suc k) o n p f =
      let r = chunk_request size n.node_id s o in
      let next = next_offset size s o in
      rw p (
        bind_agrees (waiting answer heard peer r n) _ _ (λ response.
          let m = run n (heard peer r n) in
          bind_agrees (should_abort peer s (is_last size s o) response m) _ _ (λ abort.
            let m' = (should_abort peer s (is_last size s o) response m).1 in
            let id : m'.node_id ≡ n.node_id =
              abort_id (is_last size s o) response m ∙ heard_id n (heard peer r n) in
            let rest = chunk_requests k size n.node_id s next in
            if_agrees abort (is_last size s o) (return tt)
              (send_chunks k size (waiting answer heard) peer s next)
              (exchange (waiting answer heard) peer s (if is_last size s o then [] else rest)) m'
              (λ last. rw last refl)
              (λ more.
                send_chunks-exchange k next m' (ground arith) (ground arith)
                ∙ ap
                    (λ i.
                      exchange (waiting answer heard) peer s (chunk_requests k size i s next) m')
                    id
                ∙ ap (λ rs. exchange (waiting answer heard) peer s rs m')
                    (sym (else_branch (is_last size s o) [] rest more))))))

  -- Where the snapshot can be read, the whole task is the exchange of the requests for all its data.
  pub send_snapshot-exchange :
      (n n' : Node)
      → snapshot_to_send n ≡ (ok (some s), n')
      → send_snapshot size (waiting answer heard) peer n
        ≡ try_ignoring
            (exchange
              (waiting answer heard)
              peer
              s
              (chunk_requests (suc (length s.bytes)) size n'.node_id s 0))
            n'
  unfolding send_snapshot
  send_snapshot-exchange n n' e =
      rw e (
        ap ignoring
          (send_chunks-exchange (suc (length s.bytes)) 0 n' (ground arith) (ground arith)))
