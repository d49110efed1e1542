-- ===== src/Machine/Ready/Runs.antt =====
-- Runs of a node of StateMachine.ts and the collaborators that they leave.
use compaction.Prelude.{List, ◌≡◌, refl, arith, subst, sym, ap, ◌∙◌, true}
use compaction.State.Persistent.{
  PersistentState, get_current_term, get_voted_for, update_term_and_vote,
}
use compaction.Config.Manager.{ConfigManager}
use compaction.Log.Manager.Queries.{get_last_index, get_last_term}
use compaction.Log.Manager.{LogManager}
use compaction.Log.Manager.Invariant.{IsManaged}
use compaction.Machine.{Node, RequestVoteRequest}
use compaction.Machine.Roles.{stand_for_election, stop}
use compaction.Machine.Elections.{decide_vote, grant_vote}
use compaction.Machine.Runs.{Event, run}
use compaction.Machine.Ready.{IsReady, become_follower-IsReady}
use compaction.Machine.Ready.Candidacy.{standing, stand_done}
use compaction.Prelude.Exec.{ok}
use compaction.Config.Manager.{voter}
use compaction.Machine.Steps.{Frame, Remains, Allows}
use compaction.Machine.Steps.Answers.{AllowsElection}
use compaction.Machine.Steps.Runs.{run-AllowsElection}

abbrev pub StaysReady : Node → Node → Type 0
StaysReady n n' = IsReady n → IsReady n'

-- The term and vote are usable, and the managers are the same.
ready_after :
    (n n' : Node)
    → (n.persistent_state.initialized ≡ true → n'.persistent_state.initialized ≡ true)
    → (n.persistent_state.meta.is_open_flag ≡ true → n'.persistent_state.meta.is_open_flag ≡ true)
    → n'.config_manager ≡ n.config_manager
    → n'.log_manager ≡ n.log_manager
    → StaysReady n n'
ready_after n n' i o c l h = record {
  persistent = i h.persistent;
  meta_open = o h.meta_open;
  configured = ap (λ (m : ConfigManager). m.initialized) c ∙ h.configured;
  config_open = ap (λ (m : ConfigManager). m.config_storage.is_open_flag) c ∙ h.config_open;
  managed = subst IsManaged (sym l) h.managed;
}

ready-Frame : (n n' : Node) → Frame n n' → StaysReady n n'
ready-Frame n n' f =
    ready_after n n' (λ e. ap (λ (p : PersistentState). p.initialized) f.persistent_state ∙ e)
      (λ e. ap (λ (p : PersistentState). p.meta.is_open_flag) f.persistent_state ∙ e)
      f.config_manager f.log_manager

ready-config :
    (n : Node) (c : ConfigManager)
    → Remains n.config_manager c
    → StaysReady n (record n { config_manager = c })
ready-config n c r h = record {
  persistent = h.persistent;
  meta_open = h.meta_open;
  configured = r.initialized h.configured;
  config_open = r.is_open h.config_open;
  managed = h.managed;
}

ready-log :
    (n : Node) (l : LogManager)
    → (IsManaged n.log_manager → IsManaged l)
    → StaysReady n (record n { log_manager = l })
ready-log n l k h = record {
  persistent = h.persistent;
  meta_open = h.meta_open;
  configured = h.configured;
  config_open = h.config_open;
  managed = k h.managed;
}

standing-IsReady : (n : Node) → StaysReady n (standing n)
standing-IsReady n = ready_after n (standing n) (λ e. e) (λ e. e) refl refl

stand-IsReady :
    (n : Node)
    → (voter n.node_id n.config_manager).0 ≡ ok true
    → StaysReady n (stand_for_election n).1
stand-IsReady n v h = rw (stand_done n h v) (standing-IsReady n h)

decide_vote-IsReady : (r : RequestVoteRequest) (n : Node) → StaysReady n (decide_vote r n).1
unfolding decide_vote grant_vote get_voted_for get_current_term update_term_and_vote get_last_index
    get_last_term
decide_vote-IsReady r n =
    ready_after n (decide_vote r n).1 (ground arith) (ground arith) (ground arith) (ground arith)

stop-IsReady : (n : Node) → StaysReady n (stop n).1
unfolding stop
stop-IsReady n = ready_after n (stop n).1 (λ e. e) (λ e. e) refl refl

pub StaysReady-Allows : Allows StaysReady
StaysReady-Allows = record {
  carries = record { same = λ n h. h; trans = λ a b c p q h. q (p h); frame = ready-Frame };
  logs = ready-log;
  commits = λ n c e r. ready-config n c r;
  reconfigures = λ n c e r. ready-config n c r;
  retires = become_follower-IsReady;
  stands = stand-IsReady;
  decides = λ r n e. decide_vote-IsReady r n;
  stops = stop-IsReady;
}

pub StaysReady-AllowsElection : AllowsElection StaysReady
StaysReady-AllowsElection = record {
  counts = λ n v. ready_after n _ (λ e. e) (λ e. e) refl refl;
  leads = λ i n. ready_after n _ (λ e. e) (λ e. e) refl refl;
}

-- Over any sequence of events, whether their handlers return or throw, a node whose collaborators
-- are initialized over open storages, with a well-formed log, keeps them so.
pub run-IsReady : (n : Node) (es : List Event) → IsReady n → IsReady (run n es)
run-IsReady n es = run-AllowsElection StaysReady StaysReady-Allows StaysReady-AllowsElection n es
