-- ===== src/Machine/Elections/Answers.antt =====
-- Which vote requests `handleRequestVote` of StateMachine.ts grants.
use compaction.Prelude.{
  ℕ, ◌-◌, max, none, some, Bool, true, false, not, ◌&&◌, ◌||◌, ◌≡◌, ◌∙◌, refl, arith, ltb, leb,
  ◌==◌, if◌then◌else◌, is_some, opt_eq, Bool-cases, inl, inr,
}
use compaction.Prelude.Exec.{ok}
use compaction.Config.{is_voter}
use compaction.Config.Manager.{ConfigManager, voter}
use compaction.Storage.Meta.{NodeId}
use compaction.State.Persistent.{
  PersistentState, get_current_term, get_voted_for, update_term_and_vote,
}
use compaction.Log.Manager.Queries.{get_last_index, get_last_term}
use compaction.Machine.{Node, RequestVoteRequest}
use compaction.Machine.Ready.{IsReady, become_follower_done}
use compaction.Machine.Elections.{
  become_follower, deny, answer, can_grant, is_up_to_date, handle_pre_vote, answer_vote,
  decide_vote, grant_vote, handle_request_vote,
}

-- Both nodes are voters of the active configuration.
abbrev pub both_vote : RequestVoteRequest → Node → Bool
both_vote r n =
    is_voter n.config_manager.active_config n.node_id
    && is_voter n.config_manager.active_config r.candidate_id

-- The candidate's log is no older: a higher last term, or the same with no lower last index.
abbrev pub current_log : RequestVoteRequest → Node → Bool
current_log r n =
    ltb n.log_manager.last_term r.last_log_term
    || ((n.log_manager.last_term == r.last_log_term)
        && leb n.log_manager.last_index r.last_log_index)

-- No leader was heard for the shortest election timeout, or none ever.
abbrev pub no_leader : ℕ → Node → Bool
no_leader now n =
    (n.last_leader_contact_at == 0)
    || leb n.election_timeout_min_ms (now - n.last_leader_contact_at)

up_to_date_lem : (i t li lt : ℕ) → is_up_to_date i t li lt ≡ (ltb lt t || ((lt == t) && leb li i))
unfolding is_up_to_date
up_to_date_lem i t li lt = ground arith

-- On a node whose collaborators are initialized over open storages, a pre-vote request changes
-- nothing of the node, and is granted exactly if its term is not below the node's, both nodes are
-- voters, no leader was heard for the shortest election timeout, and the candidate's log has a
-- higher last term or the same with no lower last index.
pub pre_vote_answered :
    (now : ℕ) (r : RequestVoteRequest) (n : Node)
    → IsReady n
    → r.pre_vote ≡ true
    → handle_request_vote now r n ≡ (
      ok (
          answer n.persistent_state.current_term (
            not (ltb r.term n.persistent_state.current_term)
            && (both_vote r n && (no_leader now n && current_log r n)))),
      n,
    )
unfolding handle_request_vote handle_pre_vote get_current_term voter get_last_index get_last_term
    is_up_to_date
pre_vote_answered now r n h p = ground (arith, h.managed.ready)

-- The node's vote is free: no vote in the request's term, or one for the same candidate.
abbrev pub free_vote : RequestVoteRequest → Node → Bool
free_vote r n =
    ltb n.persistent_state.current_term r.term
    || (not (is_some n.persistent_state.voted_for)
        || opt_eq n.persistent_state.voted_for (some r.candidate_id))

decide_vote_lem :
    (r : RequestVoteRequest) (n : Node)
    → IsReady n
    → n.persistent_state.current_term ≡ r.term
    → (decide_vote r n).0
      ≡ ok
          (answer r.term (can_grant n.persistent_state.voted_for r.candidate_id && current_log r n))
unfolding decide_vote grant_vote get_current_term get_voted_for get_last_index get_last_term
    update_term_and_vote is_up_to_date
decide_vote_lem r n h e = ground (arith, h.managed.ready)

answer_settled :
    (r : RequestVoteRequest) (b : Bool) (n : Node)
    → IsReady n
    → n.persistent_state.current_term ≡ r.term
    → ((if b then decide_vote r else deny) n).0
      ≡ ok (
          answer r.term
            (b && (can_grant n.persistent_state.voted_for r.candidate_id && current_log r n)))
unfolding get_current_term
answer_settled r true n h e = decide_vote_lem r n h e
answer_settled r false n h e = ground arith

refusing :
    (r : RequestVoteRequest) (s c : Bool) (n : Node)
    → IsReady n
    → n.persistent_state.current_term ≡ r.term
    → ((if not s || not c then deny else decide_vote r) n).0
      ≡ ok (
          answer r.term (
            (s && c) && (can_grant n.persistent_state.voted_for r.candidate_id && current_log r n)))
refusing r true true n h e = answer_settled r true n h e
refusing r true false n h e = answer_settled r false n h e
refusing r false c n h e = answer_settled r false n h e

answer_same :
    (r : RequestVoteRequest) (s c : Bool) (n : Node)
    → IsReady n
    → n.persistent_state.current_term ≡ r.term
    → (answer_vote r n.persistent_state.current_term s c n).0
      ≡ ok (
          answer r.term (
            (s && c) && (can_grant n.persistent_state.voted_for r.candidate_id && current_log r n)))
unfolding answer_vote
answer_same r s c n h e =
    let low : ltb r.term n.persistent_state.current_term ≡ false = ground arith in
    let up : ltb n.persistent_state.current_term r.term ≡ false = ground arith in
    rw (low, up) (refusing r s c n h e)

answer_newer :
    (r : RequestVoteRequest) (s c : Bool) (n : Node)
    → IsReady n
    → ltb n.persistent_state.current_term r.term ≡ true
    → (answer_vote r n.persistent_state.current_term s c n).0
      ≡ ok (answer r.term ((s && c) && current_log r n))
unfolding answer_vote
answer_newer r s c n h up =
    let (run, eff) = become_follower_done r.term none n h in
    let m = (become_follower r.term none n).1 in
    let low : ltb r.term n.persistent_state.current_term ≡ false = ground arith in
    let settled = refusing r s c m eff.ready (ground (arith, eff.term_adopted)) in
    rw (low, up, run) (settled ∙ ground (arith, eff.vote, eff.log_kept))

term_lem :
    (p : PersistentState) → p.initialized ≡ true → get_current_term p ≡ (ok p.current_term, p)
unfolding get_current_term
term_lem p h = ground arith

voter_lem :
    (i : NodeId) (c : ConfigManager)
    → c.initialized ≡ true
    → voter i c ≡ (ok (is_voter c.active_config i), c)
unfolding voter
voter_lem i c h = ground arith

vote_split :
    (now : ℕ) (r : RequestVoteRequest) (n : Node)
    → IsReady n
    → r.pre_vote ≡ false
    → handle_request_vote now r n
      ≡ answer_vote r n.persistent_state.current_term
          (is_voter n.config_manager.active_config n.node_id)
          (is_voter n.config_manager.active_config r.candidate_id)
          n
unfolding handle_request_vote
vote_split now r n h p =
    rw
      (
        term_lem n.persistent_state h.persistent,
        voter_lem n.node_id n.config_manager h.configured,
        voter_lem r.candidate_id n.config_manager h.configured,
        p,
      )
      refl

stale_vote :
    (r : RequestVoteRequest) (s c : Bool) (n : Node)
    → ltb r.term n.persistent_state.current_term ≡ true
    → (answer_vote r n.persistent_state.current_term s c n).0
      ≡ ok (answer n.persistent_state.current_term false)
unfolding answer_vote
stale_vote r s c n low = rw low refl

-- On a node whose collaborators are initialized over open storages, a vote request that is no pre-
-- vote is answered with the larger of the two terms, and is granted exactly if its term is not
-- below the node's, both nodes are voters, the node's vote is free in that term, and the
-- candidate's log has a higher last term or the same with no lower last index.
pub vote_answered :
    (now : ℕ) (r : RequestVoteRequest) (n : Node)
    → IsReady n
    → r.pre_vote ≡ false
    → (handle_request_vote now r n).0
      ≡ ok (
          answer (max n.persistent_state.current_term r.term) (
            not (ltb r.term n.persistent_state.current_term)
            && (both_vote r n && (free_vote r n && current_log r n))))
vote_answered now r n h p =
    let s = is_voter n.config_manager.active_config n.node_id in
    let c = is_voter n.config_manager.active_config r.candidate_id in
    rw (vote_split now r n h p) (elim (Bool-cases (ltb r.term n.persistent_state.current_term)) [
      | inl low ↦ stale_vote r s c n low ∙ ground arith
      | inr high ↦ elim (Bool-cases (ltb n.persistent_state.current_term r.term)) [
        | inl up ↦ answer_newer r s c n h up ∙ ground arith
        | inr level ↦ answer_same r s c n h (ground arith) ∙ ground arith
      ]
    ])
