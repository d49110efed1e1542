-- ===== src/Machine/Campaigns.antt =====
-- How the votes that a node of StateMachine.ts collects change where no answer is counted.
pub mod Answers
use compaction.Prelude.{
  ℕ, Option, none, some, [], ◌∷◌, ◌++◌, ◌≡◌, ◌⊎◌, inl, inr, refl, sym, ap, ◌∙◌, true, arith,
  opt_eq_iff,
}
use compaction.Prelude.Exec.{ok}
use compaction.Storage.Meta.{NodeId}
use compaction.Config.{is_voter, get_quorum_size}
use compaction.Config.Manager.{ConfigManager, voter}
use compaction.State.Persistent.{
  PersistentState, get_current_term, get_voted_for, update_term_and_vote,
}
use compaction.Log.Manager.Queries.{get_last_index, get_last_term}
use compaction.Machine.{Node, reset_election_timer, RequestVoteRequest, follower, candidate}
use compaction.Machine.Roles.{become_follower, stand_for_election, stop}
use compaction.Machine.Elections.{can_grant, decide_vote, grant_vote}
use compaction.Machine.Ready.{IsReady, become_follower_done}
use compaction.Machine.Ready.Candidacy.{stand_done, is_voter-voter}
use compaction.Machine.Ready.Runs.{StaysReady-Allows}
use compaction.Machine.Steps.{Frame, Allows}

pub data Course (n n' : Node) : Type 0 where
  kept :
      n'.node_id ≡ n.node_id
      → n'.persistent_state.current_term ≡ n.persistent_state.current_term
      → (n'.persistent_state.voted_for ≡ n.persistent_state.voted_for)
        ⊎ (n.persistent_state.voted_for ≡ none)
      → n'.config_manager.active_config ≡ n.config_manager.active_config
      → n'.current_state ≡ n.current_state
      → n'.votes_received ≡ n.votes_received
      → n'.votes_needed ≡ n.votes_needed
      → Course n n'
  rests : n'.node_id ≡ n.node_id → n'.current_state ≡ follower → Course n n'
  stood :
      n'.node_id ≡ n.node_id
      → n'.current_state ≡ candidate
      → n'.votes_received ≡ n.node_id ∷ []
      → n'.persistent_state.voted_for ≡ some n.node_id
      → is_voter n'.config_manager.active_config n.node_id ≡ true
      → n'.votes_needed ≡ get_quorum_size n'.config_manager.active_config
      → Course n n'

kept_vote :
    {v w u : Option NodeId} → (w ≡ v) ⊎ (v ≡ none) → (u ≡ w) ⊎ (w ≡ none) → (u ≡ v) ⊎ (v ≡ none)
kept_vote (inl a) (inl b) = inl (b ∙ a)
kept_vote (inl a) (inr b) = inr (sym a ∙ b)
kept_vote (inr a) b = inr a

pub kept_own : {i : NodeId} {v w : Option NodeId} → v ≡ some i → (w ≡ v) ⊎ (v ≡ none) → w ≡ some i
kept_own e (inl a) = a ∙ e
kept_own e (inr a) = cc

Course-trans : {a b c : Node} → Course a b → Course b c → Course a c
Course-trans (kept i t v c s r q) (kept i' t' v' c' s' r' q') =
    kept (i' ∙ i) (t' ∙ t) (kept_vote v v') (c' ∙ c) (s' ∙ s) (r' ∙ r) (q' ∙ q)
Course-trans (kept i t v c s r q) (rests i' s') = rests (i' ∙ i) s'
Course-trans (kept i t v c s r q) (stood i' s' r' v' m' q') =
    stood (i' ∙ i) s' (rw (← i) r') (rw (← i) v') (rw (← i) m') q'
Course-trans (rests i s) (kept i' t' v' c' s' r' q') = rests (i' ∙ i) (s' ∙ s)
Course-trans (rests i s) (rests i' s') = rests (i' ∙ i) s'
Course-trans (rests i s) (stood i' s' r' v' m' q') =
    stood (i' ∙ i) s' (rw (← i) r') (rw (← i) v') (rw (← i) m') q'
Course-trans (stood i s r v m q) (kept i' t' v' c' s' r' q') =
    stood (i' ∙ i) (s' ∙ s) (r' ∙ r) (kept_own v v') (rw c' m) (q' ∙ q ∙ rw c' refl)
Course-trans (stood i s r v m q) (rests i' s') = rests (i' ∙ i) s'
Course-trans (stood i s r v m q) (stood i' s' r' v' m' q') =
    stood (i' ∙ i) s' (rw (← i) r') (rw (← i) v') (rw (← i) m') q'

-- From a usable node, to a usable one.
abbrev pub Campaigns : Node → Node → Type 0
Campaigns n n' = IsReady n → IsReady n' × Course n n'

Campaigns-trans : (a b c : Node) → Campaigns a b → Campaigns b c → Campaigns a c
Campaigns-trans a b c p q h = let (hb, ab) = p h in let (hc, bc) = q hb in (hc, Course-trans ab bc)

Course-Frame : (n n' : Node) → Frame n n' → Course n n'
Course-Frame n n' f =
    kept f.node_id (ap (λ (p : PersistentState). p.current_term) f.persistent_state)
      (inl (ap (λ (p : PersistentState). p.voted_for) f.persistent_state))
      (ap (λ (c : ConfigManager). c.active_config) f.config_manager) f.current_state
      f.votes_received f.votes_needed

node_id-become_follower :
    (t : ℕ) (l : Option NodeId) (n : Node) → (become_follower t l n).1.node_id ≡ n.node_id
unfolding become_follower get_current_term
node_id-become_follower t l n = ground arith

Course-retire :
    (t : ℕ) (l : Option NodeId) (n : Node) → IsReady n → Course n (become_follower t l n).1
Course-retire t l n h =
    rests (node_id-become_follower t l n) ((become_follower_done t l n h).1.role)

Course-stand :
    (n : Node)
    → (voter n.node_id n.config_manager).0 ≡ ok true
    → IsReady n
    → Course n (stand_for_election n).1
Course-stand n v h =
    rw (stand_done n h v)
      (stood refl refl refl refl (is_voter-voter n.node_id n.config_manager h.configured v) refl)

abbrev granted : RequestVoteRequest → Node → Node
granted r n = record n {
  persistent_state = (update_term_and_vote r.term (some r.candidate_id) n.persistent_state).1;
  effects = n.effects ++ reset_election_timer ∷ [];
}

decide_outcome :
    (r : RequestVoteRequest) (n : Node)
    → IsReady n
    → ((decide_vote r n).1 ≡ n)
      ⊎ ((can_grant n.persistent_state.voted_for r.candidate_id ≡ true)
          × ((decide_vote r n).1 ≡ granted r n))
unfolding decide_vote grant_vote get_voted_for get_current_term update_term_and_vote get_last_index
    get_last_term
decide_outcome r n h = ground (arith, h.persistent, h.meta_open, h.managed.ready)

granted_term :
    (r : RequestVoteRequest) (n : Node)
    → n.persistent_state.current_term ≡ r.term
    → (granted r n).persistent_state.current_term ≡ n.persistent_state.current_term
unfolding update_term_and_vote
granted_term r n e = ground arith

granted_vote :
    (r : RequestVoteRequest) (n : Node)
    → can_grant n.persistent_state.voted_for r.candidate_id ≡ true
    → ((granted r n).persistent_state.voted_for ≡ n.persistent_state.voted_for)
      ⊎ (n.persistent_state.voted_for ≡ none)
unfolding update_term_and_vote
granted_vote r n e = ground (arith, opt_eq_iff n.persistent_state.voted_for (some r.candidate_id))

Course-decide :
    (r : RequestVoteRequest) (n : Node)
    → (n.persistent_state.current_term ≡ r.term) ⊎ (n.current_state ≡ follower)
    → IsReady n
    → Course n (decide_vote r n).1
Course-decide r n where_from h = elim (decide_outcome r n h) [
  | inl denied ↦ rw denied (kept refl refl (inl refl) refl refl refl refl)
  | inr (can, done) ↦ rw done (elim where_from [
    | inl e ↦ kept refl (granted_term r n e) (granted_vote r n can) refl refl refl refl
    | inr f ↦ rests refl f
  ])
]

Course-stop : (n : Node) → Course n (stop n).1
unfolding stop
Course-stop n = rests refl refl

pub Campaigns-Allows : Allows Campaigns
Campaigns-Allows = record {
  carries = record {
    same = λ n h. (h, kept refl refl (inl refl) refl refl refl refl);
    trans = Campaigns-trans;
    frame = λ n n' f h. (StaysReady-Allows.carries.frame n n' f h, Course-Frame n n' f);
  };
  logs = λ n l k h. (StaysReady-Allows.logs n l k h, kept refl refl (inl refl) refl refl refl refl);
  commits = λ n c e r h.
      (StaysReady-Allows.commits n c e r h, kept refl refl (inl refl) e refl refl refl);
  reconfigures = λ n c e r h. (StaysReady-Allows.reconfigures n c e r h, rests refl e);
  retires = λ t l n h. (StaysReady-Allows.retires t l n h, Course-retire t l n h);
  stands = λ n v h. (StaysReady-Allows.stands n v h, Course-stand n v h);
  decides = λ r n e h. (StaysReady-Allows.decides r n e h, Course-decide r n e h);
  stops = λ n h. (StaysReady-Allows.stops n h, Course-stop n);
}
