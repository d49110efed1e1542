-- ===== src/Machine/Sending/Rounds.antt =====
-- The rounds of the loop of `sendSnapshot` in StateMachine.ts.
use compaction.Prelude.{
  sym, ℕ, zero, suc, ◌+◌, ◌<◌, ◌≡◌, refl, arith, Bool, true, false, not, ◌&&◌, ◌||◌, ltb, ◌==◌,
  length, if◌then◌else◌,
}
use compaction.Prelude.Exec.{Exec, Result, ok, err, return, resume}
use compaction.Storage.Meta.{NodeId}
use compaction.Machine.{Node, InstallSnapshotRequest, InstallSnapshotResponse}
use compaction.Machine.Sending.{
  SnapshotToSend, chunk_request, is_last, next_offset, should_abort, send_chunks,
}

bind_same :
    {A B : Type 0} (x : Result A × Node) (f g : A → Exec Node B)
    → ((a : A) (n : Node) → f a n ≡ g a n)
    → resume f x ≡ resume g x
bind_same (ok a, n) f g h = h a n
bind_same (err e, n) f g h = refl

if_same :
    (b : Bool) (x y z : Exec Node (Unit {0})) (n : Node)
    → (b ≡ false → y n ≡ z n)
    → (if b then x else y) n ≡ (if b then x else z) n
if_same true x y z n h = refl
if_same false x y z n h = h refl

module _ (size : ℕ) (rpc : NodeId → InstallSnapshotRequest → Exec Node InstallSnapshotResponse)
    (peer : NodeId) (s : SnapshotToSend) (positive : 0 < size) where
  -- Where every byte is behind the offset, there is nothing to send.
  past_end :
      (j offset : ℕ) (n : Node)
      → length s.bytes < offset
      → send_chunks j size rpc peer s offset n ≡ (ok tt, n)
  unfolding send_chunks
  past_end zero offset n h = refl
  past_end (suc j) offset n h = rw ended refl
    where
      ended : (ltb offset (length s.bytes) || (length s.bytes == 0 && offset == 0)) ≡ false
      ended = ground arith

  -- For chunks of a positive size, any two numbers of rounds that pass the end of the data from the
  -- offset give the same run of the sending loop, whatever the peer answers or throws: the loop has
  -- ended before either runs out.
  pub send_chunks_rounds :
      (k j offset : ℕ) (n : Node)
      → length s.bytes < k + offset
      → length s.bytes < j + offset
      → send_chunks k size rpc peer s offset n ≡ send_chunks j size rpc peer s offset n
  unfolding send_chunks
  send_chunks_rounds zero j offset n hk hj = sym (past_end j offset n (omega arith))
  send_chunks_rounds (suc k) zero offset n hk hj = past_end (suc k) offset n (omega arith)
  send_chunks_rounds (suc k) (suc j) offset n hk hj =
      if_same (not (ltb offset (length s.bytes) || (length s.bytes == 0 && offset == 0)))
        (return tt) _ _ n
        (λ more. bind_same (rpc peer (chunk_request size n.node_id s offset) n) _ _ (λ response m.
          bind_same (should_abort peer s (is_last size s offset) response m) _ _ (λ abort m'.
            if_same (abort || is_last size s offset) (return tt) _ _ m' (λ going.
              send_chunks_rounds k j (next_offset size s offset) m' (ground arith)
                (ground arith)))))
