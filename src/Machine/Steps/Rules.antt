-- ===== src/Machine/Steps/Rules.antt =====
-- The rules by which an action of StateMachine.ts that stays in a relation is composed of such
-- actions.
use compaction.Prelude.{
  ℕ, Option, Bool, true, false, ◌≡◌, subst, sym, ◌⊎◌, inl, inr, refl, if◌then◌else◌, arith,
}
use compaction.Prelude.Exec.{
  Error, Exec, Result, ok, err, return, throw, gets, modify, resume, ◌>>=◌,
}
use compaction.Storage.Meta.{NodeId}
use compaction.State.Persistent.{PersistentState, get_current_term}
use compaction.State.Volatile.{VolatileState}
use compaction.Config.{ClusterConfig}
use compaction.Config.Manager.{ConfigManager, apply_config_entry, commit_config}
use compaction.Log.Manager.{LogManager}
use compaction.Log.Manager.Invariant.{IsManaged}
use compaction.Snapshot.{SnapshotManager}
use compaction.Machine.{
  RaftState, follower, Node, Effect, persistent, log, configuration, volatile, snapshots, emit,
}
use compaction.Machine.Roles.{become_follower}
use compaction.Machine.Steps.{
  Frame, Remains, Carries, Allows, Anyone, IsFollower, Within, Settled, Settles,
}

become_follower_role :
    (t : ℕ) (l : Option NodeId) (n : Node)
    → ((become_follower t l n).1.current_state ≡ follower)
      ⊎ ((become_follower t l n).1.current_state ≡ n.current_state)
unfolding become_follower get_current_term
become_follower_role t l n = ground arith

pub become_follower-Settles : (t : ℕ) (l : Option NodeId) → Settles (become_follower t l)
unfolding become_follower get_current_term
become_follower-Settles t l = record { at = λ n. ground arith }

active-commit :
    (d : ClusterConfig) (c : ConfigManager) → (commit_config d c).1.active_config ≡ c.active_config
unfolding commit_config
active-commit d c = ground arith

commit-Remains : (d : ClusterConfig) (c : ConfigManager) → Remains c (commit_config d c).1
unfolding commit_config
commit-Remains d c = record { initialized = ground arith; is_open = ground arith }

apply-Remains : (d : ClusterConfig) (c : ConfigManager) → Remains c (apply_config_entry d c).1
unfolding apply_config_entry
apply-Remains d c = record { initialized = ground arith; is_open = ground arith }

pub unmoved :
    (n n' : Node)
    → n'.node_id ≡ n.node_id
    → n'.persistent_state ≡ n.persistent_state
    → n'.config_manager ≡ n.config_manager
    → n'.log_manager ≡ n.log_manager
    → n'.current_state ≡ n.current_state
    → n'.votes_received ≡ n.votes_received
    → n'.votes_needed ≡ n.votes_needed
    → Frame n n'
unmoved n n' i p c l s v q = record {
  node_id = i;
  persistent_state = p;
  config_manager = c;
  log_manager = l;
  current_state = s;
  votes_received = v;
  votes_needed = q;
}

module _ (R : Node → Node → Type 0) (P : RaftState → Type 0) (S : Carries R) where
  pub Within-bind :
      {A B : Type 0} (m : Exec Node A) (f : A → Exec Node B)
      → Within R P m
      → ((a : A) → Within R P (f a))
      → Within R P (m >>= f)
  Within-bind {A} {B} m f hm hf = record { at = λ n p. go n (m n) (hm.at n p) }
    where
      go :
          (n : Node) (x : Result A × Node)
          → R n x.1 × P x.1.current_state
          → R n (resume f x).1 × P (resume f x).1.current_state
      go n (ok a, n') (r, p) = let (r', p') = (hf a).at n' p in (S.trans n n' (f a n').1 r r', p')
      go n (err e, n') h = h

  pub Within-gets : {A : Type 0} (f : Node → A) → Within R P (gets f)
  Within-gets f = record { at = λ n p. (S.same n, p) }

  pub Within-return : {A : Type 0} (a : A) → Within R P {A = A} (return a)
  Within-return a = record { at = λ n p. (S.same n, p) }

  pub Within-throw : {A : Type 0} (e : Error) → Within R P (throw {A = A} e)
  Within-throw e = record { at = λ n p. (S.same n, p) }

  pub Within-if :
      {A : Type 0} (b : Bool) (m k : Exec Node A)
      → Within R P m
      → Within R P k
      → Within R P (if b then m else k)
  Within-if true m k hm hk = hm
  Within-if false m k hm hk = hk

  pub Within-modify :
      (f : Node → Node)
      → ((n : Node) → (f n).node_id ≡ n.node_id)
      → ((n : Node) → (f n).persistent_state ≡ n.persistent_state)
      → ((n : Node) → (f n).config_manager ≡ n.config_manager)
      → ((n : Node) → (f n).log_manager ≡ n.log_manager)
      → ((n : Node) → (f n).current_state ≡ n.current_state)
      → ((n : Node) → (f n).votes_received ≡ n.votes_received)
      → ((n : Node) → (f n).votes_needed ≡ n.votes_needed)
      → Within R P (modify f)
  Within-modify f i p c l s v q = record {
    at = λ n h. (
      S.frame n (f n) (unmoved n (f n) (i n) (p n) (c n) (l n) (s n) (v n) (q n)),
      subst P (sym (s n)) h,
    );
  }

  pub Within-emit : (e : Effect) → Within R P (emit e)
  Within-emit e = record {
    at = λ n h.
        (S.frame n (emit e n).1 (unmoved n (emit e n).1 refl refl refl refl refl refl refl), h);
  }

  pub Within-volatile : {A : Type 0} (m : Exec VolatileState A) → Within R P (volatile m)
  Within-volatile m = record {
    at = λ n h. (
      S.frame n (volatile m n).1 (unmoved n (volatile m n).1 refl refl refl refl refl refl refl),
      h,
    );
  }

  pub Within-snapshots : {A : Type 0} (m : Exec SnapshotManager A) → Within R P (snapshots m)
  Within-snapshots m = record {
    at = λ n h. (
      S.frame n (snapshots m n).1 (unmoved n (snapshots m n).1 refl refl refl refl refl refl refl),
      h,
    );
  }

  pub Within-log_read :
      {A : Type 0} (m : Exec LogManager A) → ((l : LogManager) → (m l).1 ≡ l) → Within R P (log m)
  Within-log_read m k = record {
    at = λ n h. (
      S.frame n (log m n).1 (unmoved n (log m n).1 refl refl refl (k n.log_manager) refl refl refl),
      h,
    );
  }

  pub Within-read :
      {A : Type 0} (m : Exec PersistentState A)
      → ((p : PersistentState) → (m p).1 ≡ p)
      → Within R P (persistent m)
  Within-read m k = record {
    at = λ n h. (
      S.frame n (persistent m n).1
          (unmoved n (persistent m n).1 refl (k n.persistent_state) refl refl refl refl refl),
      h,
    );
  }

  pub Within-config_read :
      {A : Type 0} (m : Exec ConfigManager A)
      → ((c : ConfigManager) → (m c).1 ≡ c)
      → Within R P (configuration m)
  Within-config_read m k = record {
    at = λ n h. (
      S.frame n (configuration m n).1
          (unmoved n (configuration m n).1 refl refl (k n.config_manager) refl refl refl refl),
      h,
    );
  }

module _ (R : Node → Node → Type 0) (P : RaftState → Type 0) (S : Allows R) where
  pub Within-log :
      {A : Type 0} (m : Exec LogManager A)
      → ((l : LogManager) → IsManaged l → IsManaged (m l).1)
      → Within R P (log m)
  Within-log m k = record { at = λ n h. (S.logs n (m n.log_manager).1 (k n.log_manager), h) }

  pub Within-commit : (c : ClusterConfig) → Within R P (configuration (commit_config c))
  Within-commit c = record {
    at = λ n h. (
      S.commits n (commit_config c n.config_manager).1 (active-commit c n.config_manager)
          (commit-Remains c n.config_manager),
      h,
    );
  }

  pub Within-follow : (t : ℕ) (l : Option NodeId) → P follower → Within R P (become_follower t l)
  Within-follow t l f = record {
    at = λ n h. (
      S.retires t l n,
      elim (become_follower_role t l n) [
        | inl moved ↦ subst P (sym moved) f
        | inr stayed ↦ subst P (sym stayed) h
      ],
    );
  }

module _ (R : Node → Node → Type 0) (S : Allows R) where
  -- The new configuration is taken by a follower.
  pub Within-apply :
      (c : ClusterConfig) → Within R IsFollower (configuration (apply_config_entry c))
  Within-apply c = record {
    at = λ n h. (
      S.reconfigures n (apply_config_entry c n.config_manager).1 h
          (apply-Remains c n.config_manager),
      h,
    );
  }

  -- What follows a completed transition to follower starts in that role.
  pub Within-settle :
      {A : Type 0} (m : Exec Node Unit) (f : Unit → Exec Node A)
      → Settles m
      → Within R Anyone m
      → ((u : Unit) → Within R IsFollower (f u))
      → Within R Anyone (m >>= f)
  Within-settle {A} m f to hm hf = record { at = λ n h. go n (m n) (to.at n) ((hm.at n tt).0) }
    where
      go :
          (n : Node) (x : Result (Unit {0}) × Node)
          → Settled x
          → R n x.1
          → R n (resume f x).1 × Unit {0}
      go n (ok u, n') s r = (S.carries.trans n n' (f u n').1 r ((hf u).at n' s).0, tt)
      go n (err e, n') s r = (r, tt)
