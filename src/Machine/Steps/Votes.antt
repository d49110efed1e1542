-- ===== src/Machine/Steps/Votes.antt =====
-- The handler of vote requests in StateMachine.ts, in the relations that allow its parts.
use compaction.Prelude.{
  ℕ, none, Bool, true, false, not, ◌&&◌, ◌||◌, ltb, ◌≡◌, refl, sym, ◌∙◌, arith, Bool-cases, inl,
  inr, if◌then◌else◌,
}
use compaction.Prelude.Exec.{Exec, Result, ok, err, persistent_state, resume, ◌>>=◌}
use compaction.Storage.Meta.{NodeId}
use compaction.State.Persistent.{PersistentState, get_current_term, get_voted_for}
use compaction.Config.Manager.{voter}
use compaction.Log.Manager.Queries.{get_last_index, get_last_term}
use compaction.Machine.{Node, RequestVoteRequest, configuration, persistent}
use compaction.Machine.Roles.{self_is_voter, become_follower}
use compaction.Machine.Elections.{
  answer, deny, answer_vote, handle_pre_vote, decide_vote, grant_vote, handle_request_vote,
}
use compaction.Machine.Steps.{Allows, Within, Anyone, IsFollower}
use compaction.Machine.Steps.Rules.{
  Within-follow, Within-settle, Within-return, become_follower-Settles,
}
use compaction.Machine.Steps.Reads.{within_rules}
use compaction.Machine.Steps.Elections.{handle_pre_vote-Within}

-- The action stays in the relation from a node in the term.
record WithinAt (R : Node → Node → Type 0) (t : ℕ) {A : Type 0} (m : Exec Node A) : Type 0 where
  at : (n : Node) → n.persistent_state.current_term ≡ t → R n (m n).1

-- The action leaves the term as it is.
record KeepsTerm {A : Type 0} (m : Exec Node A) : Type 0 where
  at : (n : Node) → (m n).1.persistent_state ≡ n.persistent_state

self_is_voter-KeepsTerm : KeepsTerm self_is_voter
self_is_voter-KeepsTerm = record { at = λ n. refl }

configuration-KeepsTerm : (i : NodeId) → KeepsTerm (configuration (voter i))
configuration-KeepsTerm i = record { at = λ n. refl }

known_term :
    (p : PersistentState) → p.initialized ≡ true → get_current_term p ≡ (ok p.current_term, p)
unfolding get_current_term
known_term p h = ground arith

unknown_term :
    (p : PersistentState) → p.initialized ≡ false → get_current_term p ≡ (err persistent_state, p)
unfolding get_current_term
unknown_term p h = ground arith

decide_vote_role :
    (r : RequestVoteRequest) (n : Node) → (decide_vote r n).1.current_state ≡ n.current_state
unfolding decide_vote grant_vote get_voted_for get_last_index get_last_term get_current_term
decide_vote_role r n = ground arith

module _ (R : Node → Node → Type 0) (S : Allows R) where
  WithinAt-any : (t : ℕ) {A : Type 0} (m : Exec Node A) → Within R Anyone m → WithinAt R t m
  WithinAt-any t m h = record { at = λ n e. (h.at n tt).0 }

  WithinAt-bind :
      (t : ℕ) {A B : Type 0} (m : Exec Node A) (f : A → Exec Node B)
      → KeepsTerm m
      → Within R Anyone m
      → ((a : A) → WithinAt R t (f a))
      → WithinAt R t (m >>= f)
  WithinAt-bind t {A} {B} m f k hm hf = record { at = λ n e. go n e (m n) (k.at n) (hm.at n tt).0 }
    where
      go :
          (n : Node)
          → n.persistent_state.current_term ≡ t
          → (x : Result A × Node) → x.1.persistent_state ≡ n.persistent_state
          → R n x.1
          → R n (resume f x).1
      go n e (ok a, n') p r = S.carries.trans n n' (f a n').1 r ((hf a).at n' (ground arith))
      go n e (err x, n') p r = r

  WithinAt-if :
      (t : ℕ) {A : Type 0} (b : Bool) (m k : Exec Node A)
      → WithinAt R t m
      → WithinAt R t k
      → WithinAt R t (if b then m else k)
  WithinAt-if t true m k hm hk = hm
  WithinAt-if t false m k hm hk = hk

  deny-Within : Within R Anyone deny
  deny-Within = search within_rules

  decide-Within : (r : RequestVoteRequest) → Within R IsFollower (decide_vote r)
  decide-Within r = record { at = λ n h. (S.decides r n (inr h), decide_vote_role r n ∙ h) }

  refuse_or_decide :
      (r : RequestVoteRequest) (b : Bool) → Within R IsFollower (if b then deny else decide_vote r)
  refuse_or_decide r b = search (within_rules, decide-Within)

  decided :
      (r : RequestVoteRequest) (t : ℕ) (b : Bool)
      → r.term ≡ t
      → WithinAt R t (if b then deny else decide_vote r)
  decided r t b e =
      WithinAt-if t b deny (decide_vote r) (WithinAt-any t deny deny-Within)
        (record { at = λ n h. S.decides r n (inl (h ∙ sym e)) })

  answer_vote-WithinAt :
      (r : RequestVoteRequest) (t : ℕ) (s c : Bool) → WithinAt R t (answer_vote r t s c)
  unfolding answer_vote
  answer_vote-WithinAt r t s c = elim (Bool-cases (ltb r.term t)) [
    | inl old ↦ rw old (WithinAt-any t _ (Within-return R Anyone S.carries (answer t false)))
    | inr new ↦ rw new (elim (Bool-cases (ltb t r.term)) [
      | inl newer ↦ rw newer (
          WithinAt-any t _ (
            Within-settle R S (become_follower r.term none)
              (λ u. if not s || not c then deny else decide_vote r)
              (become_follower-Settles r.term none) (Within-follow R Anyone S r.term none tt)
              (λ u. refuse_or_decide r (not s || not c))))
      | inr same ↦ rw same (decided r t (not s || not c) (ground arith))
    ])
  ]

  voters_asked :
      (now : ℕ) (r : RequestVoteRequest) (t : ℕ)
      → WithinAt R t (do
        self_votes ← self_is_voter
        candidate_votes ← configuration (voter r.candidate_id)
        if r.pre_vote
            then handle_pre_vote now r t (self_votes && candidate_votes)
            else answer_vote r t self_votes candidate_votes)
  voters_asked now r t =
      WithinAt-bind t self_is_voter _ self_is_voter-KeepsTerm (search within_rules) (λ s.
        WithinAt-bind t (configuration (voter r.candidate_id)) _
          (configuration-KeepsTerm r.candidate_id) (search within_rules)
          (λ c.
            WithinAt-if t r.pre_vote _ _
              (WithinAt-any t _ (handle_pre_vote-Within R S now r t (s && c)))
              (answer_vote-WithinAt r t s c)))

  -- An action that starts by reading the term.
  Within-known :
      {A : Type 0} (f : ℕ → Exec Node A)
      → ((t : ℕ) → WithinAt R t (f t))
      → Within R Anyone (persistent get_current_term >>= f)
  Within-known f h = record {
    at = λ n p. (
      elim (Bool-cases n.persistent_state.initialized) [
        | inl known ↦
            rw (known_term n.persistent_state known) ((h n.persistent_state.current_term).at n refl)
        | inr fresh ↦ rw (unknown_term n.persistent_state fresh) (S.carries.same n)
      ],
      tt,
    );
  }

  pub handle_request_vote-Within :
      (now : ℕ) (r : RequestVoteRequest) → Within R Anyone (handle_request_vote now r)
  unfolding handle_request_vote
  handle_request_vote-Within now r = Within-known _ (voters_asked now r)
