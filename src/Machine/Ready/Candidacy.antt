-- ===== src/Machine/Ready/Candidacy.antt =====
-- What a voter's candidacy in StateMachine.ts leaves, where the collaborators are initialized over
-- open storages.
use compaction.Prelude.{◌+◌, some, none, [], ◌∷◌, ◌++◌, true, ◌≡◌, refl, arith}
use compaction.Prelude.Exec.{ok}
use compaction.Config.{get_quorum_size, is_voter}
use compaction.Config.Manager.{ConfigManager, voter, quorum_size}
use compaction.Storage.Meta.{NodeId}
use compaction.State.Persistent.{PersistentState, get_current_term, update_term_and_vote}
use compaction.Machine.{Node, candidate, start_election_timer}
use compaction.Machine.Ready.{IsReady}
use compaction.Machine.Roles.{stand_for_election}

pub term_of :
    (p : PersistentState) → p.initialized ≡ true → get_current_term p ≡ (ok p.current_term, p)
unfolding get_current_term
term_of p h = ground arith

abbrev pub voted_for_self : Node → PersistentState
voted_for_self n = record n.persistent_state {
  current_term = n.persistent_state.current_term + 1;
  voted_for = some n.node_id;
  meta = record n.persistent_state.meta {
    content =
        some (record { term = n.persistent_state.current_term + 1; voted_for = some n.node_id });
  };
}

pub vote_recorded :
    (n : Node)
    → IsReady n
    → update_term_and_vote (n.persistent_state.current_term + 1) (some n.node_id) n.persistent_state
      ≡ (ok tt, voted_for_self n)
unfolding update_term_and_vote
vote_recorded n h = ground (arith, h.persistent, h.meta_open)

pub voter_lem :
    (i : NodeId) (c : ConfigManager)
    → c.initialized ≡ true
    → voter i c ≡ (ok (is_voter c.active_config i), c)
unfolding voter
voter_lem i c h = ground arith

quorum_size_lem :
    (c : ConfigManager)
    → c.initialized ≡ true
    → quorum_size c ≡ (ok (get_quorum_size c.active_config), c)
unfolding quorum_size
quorum_size_lem c h = ground arith

-- A member that votes, by the answer of the configuration manager.
pub is_voter-voter :
    (i : NodeId) (c : ConfigManager)
    → c.initialized ≡ true
    → (voter i c).0 ≡ ok true
    → is_voter c.active_config i ≡ true
is_voter-voter i c h v = ground (arith, voter_lem i c h)

abbrev pub standing : Node → Node
standing n = record n {
  current_state = candidate;
  current_leader = none;
  leader_state = none;
  persistent_state = voted_for_self n;
  votes_received = n.node_id ∷ [];
  votes_needed = get_quorum_size n.config_manager.active_config;
  effects = n.effects ++ start_election_timer ∷ [];
}

pub stand_done :
    (n : Node)
    → IsReady n
    → (voter n.node_id n.config_manager).0 ≡ ok true
    → stand_for_election n ≡ (ok tt, standing n)
unfolding stand_for_election
stand_done n h v =
    rw
      (
        term_of n.persistent_state h.persistent,
        vote_recorded n h,
        voter_lem n.node_id n.config_manager h.configured,
        is_voter-voter n.node_id n.config_manager h.configured v,
        quorum_size_lem n.config_manager h.configured,
      )
      refl
