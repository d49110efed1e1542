-- ===== src/Machine/Leadership.antt =====
-- The role of leader under the actions of StateMachine.ts.
pub mod Elected
use compaction.Prelude.{ℕ, Option, ◌≡◌, arith, sym, ◌∙◌}
use compaction.Storage.Meta.{NodeId}
use compaction.State.Persistent.{get_current_term, get_voted_for, update_term_and_vote}
use compaction.Log.Manager.Queries.{get_last_index, get_last_term}
use compaction.Machine.{Node, RequestVoteRequest, leader}
use compaction.Machine.Roles.{become_follower, stand_for_election, stop}
use compaction.Machine.Elections.{decide_vote, grant_vote}
use compaction.Machine.Steps.{Frame, Carries, Allows}

-- The second node leads only where the first one did.
abbrev pub Stays : Node → Node → Type 0
Stays n n' = n'.current_state ≡ leader → n.current_state ≡ leader

Stays-Frame : (n n' : Node) → Frame n n' → Stays n n'
Stays-Frame n n' f h = sym f.current_state ∙ h

pub become_follower-Stays :
    (t : ℕ) (l : Option NodeId) (n : Node) → Stays n (become_follower t l n).1
unfolding become_follower get_current_term
become_follower-Stays t l n h = ground arith

stand-Stays : (n : Node) → Stays n (stand_for_election n).1
unfolding stand_for_election get_current_term
stand-Stays n h = ground arith

decide_vote-Stays : (r : RequestVoteRequest) (n : Node) → Stays n (decide_vote r n).1
unfolding decide_vote grant_vote get_voted_for get_current_term
decide_vote-Stays r n h = ground arith

stop-Stays : (n : Node) → Stays n (stop n).1
unfolding stop
stop-Stays n h = ground arith

Stays-Carries : Carries Stays
Stays-Carries = record { same = λ n h. h; trans = λ a b c p q h. p (q h); frame = Stays-Frame }

pub Stays-Allows : Allows Stays
Stays-Allows = record {
  carries = Stays-Carries;
  logs = λ n l k h. h;
  commits = λ n c e r h. h;
  reconfigures = λ n c e r h. h;
  retires = become_follower-Stays;
  stands = λ n e. stand-Stays n;
  decides = λ r n e. decide_vote-Stays r n;
  stops = stop-Stays;
}
