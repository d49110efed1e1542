-- ===== src/State/Persistent.antt =====
-- packages/raft-core/src/state/PersistentState.ts: the term and the vote, kept in a `MetaStorage`.
pub mod Durability
use compaction.Prelude.{
  ℕ, Option, none, some, Bool, true, false, not, ◌&&◌, ltb, ◌==◌, opt_eq, if◌then◌else◌,
}
use compaction.Prelude.Exec.{
  Exec, Result, ok, err, persistent_state, return, throw, throw_if, gets, modify, resume, ◌>>=◌,
  ◌>>◌,
}
use compaction.Storage.Meta
use compaction.Storage.Meta.{NodeId, MetaData, MetaStorage}

pub record PersistentState : Type 0 where
  pub current_term : ℕ
  pub voted_for : Option NodeId
  pub initialized : Bool
  pub meta : MetaStorage

pub record PersistentStateSnapshot : Type 0 where
  pub current_term : ℕ
  pub voted_for : Option NodeId

-- `new PersistentState(meta)`
abbrev pub new : MetaStorage → PersistentState
new m = record { current_term = 0; voted_for = none; initialized = false; meta = m }

-- `try { await f } catch { throw new PersistentStateError }` on the storage
abbrev pub wrap :
    {A : Type 0} → PersistentState → Result A × MetaStorage → Result A × PersistentState
wrap p (ok a, m) = (ok a, record p { meta = m })
wrap p (err e, m) = (err persistent_state, record p { meta = m })

abbrev pub on_meta : {A : Type 0} → Exec MetaStorage A → Exec PersistentState A
on_meta f p = wrap p (f p.meta)

abbrev pub view : PersistentState → PersistentStateSnapshot
view p = record { current_term = p.current_term; voted_for = p.voted_for }

ensure_initialized : Exec PersistentState Unit
ensure_initialized p = throw_if (not p.initialized) persistent_state p

-- `restore` assigns the two fields before `initialize` assigns them again.
abbrev pub adopt : Option MetaData → PersistentState → PersistentState
adopt none p = p
adopt (some d) p = record p { current_term = d.term; voted_for = d.voted_for }

unfoldable pub restore : Exec PersistentState PersistentStateSnapshot
unfolding Meta.read
restore = do found ← on_meta Meta.read; modify (adopt found); gets view

unfoldable pub initialize : Exec PersistentState PersistentStateSnapshot
unfolding restore Meta.is_open
initialize p =
    if p.initialized
    then (ok (view p), p)
    else (do
      throw_if (not (Meta.is_open p.meta)) persistent_state
      snapshot ← restore
      modify (λ q. record q {
        current_term = snapshot.current_term;
        voted_for = snapshot.voted_for;
        initialized = true;
      })
      return snapshot)
        p

unfoldable pub get_current_term : Exec PersistentState ℕ
unfolding ensure_initialized
get_current_term = do ensure_initialized; gets (λ p. p.current_term)

unfoldable pub get_voted_for : Exec PersistentState (Option NodeId)
unfolding ensure_initialized
get_voted_for = do ensure_initialized; gets (λ p. p.voted_for)

-- `validateTerm` refuses what is no non-negative integer; every ℕ passes it.
unfoldable pub assert_valid_new_term : ℕ → Exec PersistentState Unit
assert_valid_new_term t p = throw_if (ltb t p.current_term) persistent_state p

unfoldable pub update_term_and_vote : ℕ → Option NodeId → Exec PersistentState Unit
unfolding ensure_initialized assert_valid_new_term Meta.write
update_term_and_vote t v = do
  ensure_initialized
  assert_valid_new_term t
  same ← gets (λ p. t == p.current_term && opt_eq v p.voted_for)
  if same
      then return tt
      else do on_meta (Meta.write t v); modify (λ p. record p { current_term = t; voted_for = v })

unfoldable pub set_current_term : ℕ → Exec PersistentState Unit
unfolding update_term_and_vote
set_current_term t = update_term_and_vote t none

unfoldable pub clear : Exec PersistentState Unit
unfolding ensure_initialized Meta.write
clear = do
  ensure_initialized
  on_meta (Meta.write 0 none)
  modify (λ p. record p { current_term = 0; voted_for = none })
