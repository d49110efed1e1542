-- ===== src/State/Leader/Tracking.antt =====
-- The next and the matched index that LeaderState.ts keeps of each peer.
use compaction.Prelude.{
  ℕ, zero, suc, ◌+◌, ◌≤◌, ◌<◌, Option, none, some, Bool, true, false, ◌⊎◌, inl, inr, ◌≡◌, refl,
  arith, if◌then◌else◌, is_some, List, [], ◌∷◌, includes, eq_iff, includes-append,
}
use compaction.Prelude.Exec.{ok, err, Result}
use compaction.Storage.Meta.{NodeId}
use compaction.Log.Manager.{LogManager}
use compaction.State.Leader.{
  find_from, LeaderState, Indices, value, assign, fill, new, set_next_index, decrement_next_index,
  update_match_index, add_peer, initialize, reset, update_next_index_with_conflict,
  find_last_index_of_term,
}

-- Both indices are there exactly for the peers, and the next index is past the matched one.
pub record IsTracking (s : LeaderState) : Type 0 where
  pub matched : (p : NodeId) → is_some (s.match_index p) ≡ includes s.peers p
  pub upcoming : (p : NodeId) → is_some (s.next_index p) ≡ includes s.peers p
  pub ahead :
      (p : NodeId) → includes s.peers p ≡ true → value (s.match_index p) < value (s.next_index p)

fill_lem :
    (ps : List NodeId) (v : ℕ) (m : Indices) (p : NodeId)
    → fill ps v m p ≡ (if includes ps p then some v else m p)
unfolding fill
fill_lem [] v m p = refl
fill_lem (q ∷ ps) v m p = ground (arith, fill_lem ps v (assign m q v) p, eq_iff q p)

initialize-IsTracking : (i : ℕ) (s : LeaderState) → IsTracking (initialize i s)
unfolding initialize
initialize-IsTracking i s = record {
  matched = λ p. ground (arith, fill_lem s.peers 0 (λ j. none) p);
  upcoming = λ p. ground (arith, fill_lem s.peers (i + 1) (λ j. none) p);
  ahead = λ p h.
      ground (arith, fill_lem s.peers 0 (λ j. none) p, fill_lem s.peers (i + 1) (λ j. none) p);
}

pub new-IsTracking : (ps : List NodeId) (i : ℕ) → IsTracking (new ps i)
unfolding new
new-IsTracking ps i =
    initialize-IsTracking i (record { next_index = λ j. none; match_index = λ j. none; peers = ps })

reset-IsTracking : (i : ℕ) (s : LeaderState) → IsTracking (reset i s)
unfolding reset
reset-IsTracking i s = initialize-IsTracking i s

-- The public methods that write: `initialize`, `reset`, `setNextIndex`, `updateMatchIndex`,
-- `decrementNextIndex`, `addPeer` and `updateNextIndexWithConflict`.
pub data Op : Type 0 where
  set_next update_match : NodeId → ℕ → Op
  initialize_at reset_at : ℕ → Op
  decrement : NodeId → Op
  add : NodeId → ℕ → Op
  conflict : NodeId → ℕ → ℕ → LogManager → Op

abbrev pub apply : LeaderState → Op → LeaderState
apply s (set_next p i) = (set_next_index p i s).1
apply s (update_match p i) = (update_match_index p i s).1
apply s (initialize_at i) = initialize i s
apply s (reset_at i) = reset i s
apply s (decrement p) = (decrement_next_index p s).1
apply s (add p i) = add_peer p i s
apply s (conflict p i t log) = (update_next_index_with_conflict p i t log s).1

set_next-IsTracking :
    (q : NodeId) (i : ℕ) (s : LeaderState) → IsTracking s → IsTracking (set_next_index q i s).1
unfolding set_next_index
set_next-IsTracking q i s h = record {
  matched = λ p. ground (arith, h.matched p);
  upcoming = λ p. ground (arith, h.upcoming p, eq_iff q p);
  ahead = λ p m. ground (arith, h.ahead p, eq_iff q p);
}

decrement-IsTracking :
    (q : NodeId) (s : LeaderState) → IsTracking s → IsTracking (decrement_next_index q s).1
unfolding decrement_next_index
decrement-IsTracking q s h = record {
  matched = λ p. ground (arith, h.matched p);
  upcoming = λ p. ground (arith, h.upcoming p, eq_iff q p);
  ahead = λ p m. ground (arith, h.ahead p, eq_iff q p);
}

pub update_match-IsTracking :
    (q : NodeId) (i : ℕ) (s : LeaderState) → IsTracking s → IsTracking (update_match_index q i s).1
unfolding update_match_index
update_match-IsTracking q i s h = record {
  matched = λ p. ground (arith, h.matched p, eq_iff q p);
  upcoming = λ p. ground (arith, h.upcoming p, eq_iff q p);
  ahead = λ p m. ground (arith, h.ahead p, eq_iff q p);
}

add-IsTracking : (q : NodeId) (i : ℕ) (s : LeaderState) → IsTracking s → IsTracking (add_peer q i s)
unfolding add_peer
add-IsTracking q i s h = record {
  matched = λ p. ground (arith, h.matched p, eq_iff q p, includes-append s.peers (q ∷ []) p);
  upcoming = λ p. ground (arith, h.upcoming p, eq_iff q p, includes-append s.peers (q ∷ []) p);
  ahead = λ p m. ground (arith, h.ahead p, eq_iff q p, includes-append s.peers (q ∷ []) p);
}

find_from_keeps : (i t : ℕ) (log : LogManager) (s : LeaderState) → (find_from i t log s).1 ≡ s
unfolding find_from
find_from_keeps zero t log s = refl
find_from_keeps (suc i) t log s = ground (arith, find_from_keeps i t log s)

find_keeps : (t : ℕ) (log : LogManager) (s : LeaderState) → (find_last_index_of_term t log s).1 ≡ s
unfolding find_last_index_of_term
find_keeps t log s = ground (arith, find_from_keeps log.last_index t log s)

-- The index that a conflict hint leads to: past the leader's own run of the term, if it has one.
abbrev pub hinted : ℕ → ℕ → Result (Option ℕ) → Option ℕ
hinted zero i r = some i
hinted (suc t) i (ok none) = some i
hinted (suc t) i (ok (some k)) = some (k + 1)
hinted (suc t) i (err e) = none

abbrev pub set_hinted : NodeId → Option ℕ → LeaderState → LeaderState
set_hinted q none s = s
set_hinted q (some i) s = (set_next_index q i s).1

conflict_step :
    (q : NodeId) (i t : ℕ) (log : LogManager) (s : LeaderState) (r : Result (Option ℕ))
    → find_last_index_of_term t log s ≡ (r, s)
    → (update_next_index_with_conflict q i t log s).1 ≡ set_hinted q (hinted t i r) s
unfolding update_next_index_with_conflict
conflict_step q i zero log s r e = ground (arith, eq_iff q q)
conflict_step q i (suc t) log s (err x) e = ground (arith, eq_iff q q)
conflict_step q i (suc t) log s (ok none) e = ground (arith, eq_iff q q)
conflict_step q i (suc t) log s (ok (some k)) e = ground (arith, eq_iff q q)

-- The hint sets the next index once, to the hinted index or past the matched one.
update_next_index_with_conflict_lem :
    (q : NodeId) (i t : ℕ) (log : LogManager) (s : LeaderState)
    → (update_next_index_with_conflict q i t log s).1
      ≡ set_hinted q (hinted t i (find_last_index_of_term t log s).0) s
update_next_index_with_conflict_lem q i t log s =
    conflict_step q i t log s (find_last_index_of_term t log s).0
      (ground (arith, find_keeps t log s))

set_hinted-IsTracking :
    (q : NodeId) (o : Option ℕ) (s : LeaderState) → IsTracking s → IsTracking (set_hinted q o s)
set_hinted-IsTracking q none s h = h
set_hinted-IsTracking q (some i) s h = set_next-IsTracking q i s h

-- Every operation that writes the leader's state, whether it succeeds or throws, keeps both indices
-- exactly for the peers and each peer's next index above its matched index.
pub apply-IsTracking : (s : LeaderState) (o : Op) → IsTracking s → IsTracking (apply s o)
apply-IsTracking s (set_next p i) h = set_next-IsTracking p i s h
apply-IsTracking s (update_match p i) h = update_match-IsTracking p i s h
apply-IsTracking s (initialize_at i) h = initialize-IsTracking i s
apply-IsTracking s (reset_at i) h = reset-IsTracking i s
apply-IsTracking s (decrement p) h = decrement-IsTracking p s h
apply-IsTracking s (add p i) h = add-IsTracking p i s h
apply-IsTracking s (conflict p i t log) h =
    rw (update_next_index_with_conflict_lem p i t log s) (set_hinted-IsTracking p _ s h)

match_set_next :
    (q : NodeId) (i : ℕ) (s : LeaderState) (p : NodeId)
    → (set_next_index q i s).1.match_index p ≡ s.match_index p
unfolding set_next_index
match_set_next q i s p = ground arith

match_set_hinted :
    (q : NodeId) (o : Option ℕ) (s : LeaderState) (p : NodeId)
    → (set_hinted q o s).match_index p ≡ s.match_index p
match_set_hinted q none s p = refl
match_set_hinted q (some i) s p = match_set_next q i s p

abbrev pub restarts : Op → Bool
restarts (initialize_at i) = true
restarts (reset_at i) = true
restarts _ = false

match_initialize :
    (i : ℕ) (s : LeaderState) (p : NodeId) → value ((initialize i s).match_index p) ≡ 0
unfolding initialize
match_initialize i s p = ground (arith, fill_lem s.peers 0 (λ j. none) p)

-- Where both indices are kept exactly for the peers, an operation either is `initialize` or `reset`
-- and puts what every peer has matched back to 0, or does not lower what a peer has matched.
pub match_index_grows :
    (s : LeaderState) (o : Op) (p : NodeId)
    → IsTracking s
    → ((restarts o ≡ true) × (value ((apply s o).match_index p) ≡ 0))
      ⊎ (value (s.match_index p) ≤ value ((apply s o).match_index p))
match_index_grows s (initialize_at i) p h = inl (refl, match_initialize i s p)
match_index_grows s (reset_at i) p h = inl (refl, unfold reset in match_initialize i s p)
match_index_grows s (set_next q i) p h = inr (unfold set_next_index in ground arith)
match_index_grows s (update_match q i) p h =
    inr (unfold update_match_index in ground (arith, eq_iff q p))
match_index_grows s (decrement q) p h = inr (unfold decrement_next_index in ground arith)
match_index_grows s (add q i) p h = inr (unfold add_peer in ground (arith, eq_iff q p, h.matched p))
match_index_grows s (conflict q i t log) p h = inr (
    rw (update_next_index_with_conflict_lem q i t log s)
      (rw (match_set_hinted q _ s p) (omega arith)))
