-- ===== src/State/Persistent/Durability.antt =====
-- What PersistentState.ts writes, and what a restarted node reads.
use compaction.Prelude.{
  refl, Bool-cases, inl, inr, ◌∙◌, ◌<◌, ℕ, ◌≤◌, Option, none, true, ◌≡◌, arith, opt_eq_iff, ltb,
  List, [], ◌∷◌,
}
use compaction.Prelude.Exec.{ok, err, persistent_state}
use compaction.Storage.Meta.{NodeId, MetaStorage}
use compaction.State.Persistent.{
  PersistentState, new, view, adopt, initialize, update_term_and_vote, set_current_term, clear,
}

-- The memory copy agrees with the storage; an empty storage stands for term 0 and no vote.
pub record IsDurable (p : PersistentState) : Type 0 where
  pub stored : view p ≡ view (adopt p.meta.content (new p.meta))
  pub ready : p.initialized ≡ true

pub initialize-IsDurable :
    (m : MetaStorage) → m.is_open_flag ≡ true → IsDurable (initialize (new m)).1
unfolding initialize
initialize-IsDurable m h = ground arith

update-IsDurable :
    (t : ℕ) (v : Option NodeId) (p : PersistentState)
    → IsDurable p
    → IsDurable (update_term_and_vote t v p).1
unfolding update_term_and_vote
update-IsDurable t v p h = ground arith

clear-IsDurable : (p : PersistentState) → IsDurable p → IsDurable (clear p).1
unfolding clear
clear-IsDurable p h = ground arith

-- The operations that change the term or the vote.
pub data Op : Type 0 where
  update : ℕ → Option NodeId → Op
  set_term : ℕ → Op
  reset : Op

abbrev pub apply : PersistentState → Op → PersistentState
apply p (update t v) = (update_term_and_vote t v p).1
apply p (set_term t) = (set_current_term t p).1
apply p reset = (clear p).1

abbrev pub run : PersistentState → List Op → PersistentState
run p [] = p
run p (o ∷ os) = run (apply p o) os

apply-IsDurable : (o : Op) (p : PersistentState) → IsDurable p → IsDurable (apply p o)
unfolding set_current_term
apply-IsDurable (update t v) p h = update-IsDurable t v p h
apply-IsDurable (set_term t) p h = update-IsDurable t none p h
apply-IsDurable reset p h = clear-IsDurable p h

run-IsDurable : (os : List Op) (p : PersistentState) → IsDurable p → IsDurable (run p os)
run-IsDurable [] p h = h
run-IsDurable (o ∷ os) p h = run-IsDurable os (apply p o) (apply-IsDurable o p h)

restart_lem :
    (p : PersistentState)
    → IsDurable p
    → p.meta.is_open_flag ≡ true
    → (initialize (new p.meta)).0 ≡ ok (view p)
unfolding initialize
restart_lem p h is_open = ground arith

-- What an update with a term and a vote does: a term that falls is refused and changes nothing; any
-- other is in memory and in the storage when the call returns.
pub data IsStored (t : ℕ) (v : Option NodeId) (p : PersistentState) : Type 0 where
  refused :
      t < p.current_term → update_term_and_vote t v p ≡ (err persistent_state, p) → IsStored t v p
  done :
      p.current_term ≤ t
      → (update_term_and_vote t v p).0 ≡ ok tt
      → view (update_term_and_vote t v p).1 ≡ record { current_term = t; voted_for = v }
      → IsDurable (update_term_and_vote t v p).1
      → IsStored t v p

-- On an initialized state that agrees with its open storage, an update with a term below the
-- current one is refused and changes nothing, and any other succeeds with the new term and vote in
-- memory and in the storage.
pub update-IsStored :
    (t : ℕ) (v : Option NodeId) (p : PersistentState)
    → IsDurable p
    → p.meta.is_open_flag ≡ true
    → IsStored t v p
update-IsStored t v p h o = elim (Bool-cases (ltb t p.current_term)) [
  | inl low ↦ refused (ground arith) (unfold update_term_and_vote in ground arith)
  | inr high ↦
      done (ground arith) (unfold update_term_and_vote in ground arith)
        (unfold update_term_and_vote in ground (arith, opt_eq_iff v p.voted_for))
        (update-IsDurable t v p h)
]

open-apply : (o : Op) (p : PersistentState) → (apply p o).meta.is_open_flag ≡ p.meta.is_open_flag
open-apply (update t v) p = unfold update_term_and_vote in ground arith
open-apply (set_term t) p = unfold set_current_term in ground arith
open-apply reset p = unfold clear in ground arith

open-run : (os : List Op) (p : PersistentState) → (run p os).meta.is_open_flag ≡ p.meta.is_open_flag
open-run [] p = refl
open-run (o ∷ os) p = open-run os (apply p o) ∙ open-apply o p

open-initialize : (m : MetaStorage) → (initialize (new m)).1.meta.is_open_flag ≡ m.is_open_flag
unfolding initialize
open-initialize m = ground arith

-- Starting from an open storage, after any sequence of updates of the term, updates of the vote and
-- clearings, refused ones included, a state that is initialized again from the storage returns the
-- term and the vote that were current.
pub restart_after_run :
    (m : MetaStorage) (os : List Op)
    → m.is_open_flag ≡ true
    → (initialize (new (run (initialize (new m)).1 os).meta)).0
      ≡ ok (view (run (initialize (new m)).1 os))
restart_after_run m os o =
    restart_lem (run (initialize (new m)).1 os)
      (run-IsDurable os (initialize (new m)).1 (initialize-IsDurable m o))
      (open-run os (initialize (new m)).1 ∙ open-initialize m ∙ o)
