-- ===== src/Machine/Steps/Runs.antt =====
-- The events of a node of StateMachine.ts, in the relations that allow their parts.
use compaction.Machine.{Node}
use compaction.Machine.Runs.{
  Event, step, run, request_vote, append_entries, install_snapshot, vote_answer, pre_vote_answer,
  append_answer, election_timeout, heartbeat, starting, stopping,
}
use compaction.Prelude.{List, [], ◌∷◌}
use compaction.Machine.Steps.{Allows}
use compaction.Machine.Steps.Answers.{AllowsElection, handle_request_vote_response-Within}
use compaction.Machine.Steps.Transitions.{start-Within, stop-Within}
use compaction.Machine.Steps.Elections.{
  handle_election_timeout-Within, handle_pre_vote_response-Within,
}
use compaction.Machine.Steps.Votes.{handle_request_vote-Within}
use compaction.Machine.Steps.Followers.{handle_append_entries-Within}
use compaction.Machine.Steps.Installers.{handle_install_snapshot-Within}
use compaction.Machine.Steps.Leaders.{
  handle_append_entries_response-Within, trigger_replication-Within,
}

-- It is no answer to a vote request.
abbrev pub IsOther : Event → Type 0
IsOther (vote_answer p r) = ⊥
IsOther e = Unit

module _ (R : Node → Node → Type 0) (S : Allows R) where
  pub step-Allows : (n : Node) (e : Event) → IsOther e → R n (step n e)
  unfolding step
  step-Allows n (request_vote now r) o = ((handle_request_vote-Within R S now r).at n tt).0
  step-Allows n (append_entries now r) o = ((handle_append_entries-Within R S now r).at n tt).0
  step-Allows n (install_snapshot f now p r) o =
      ((handle_install_snapshot-Within R S f now p r).at n tt).0
  step-Allows n (vote_answer p r) o = absurd o
  step-Allows n (pre_vote_answer p r) o = ((handle_pre_vote_response-Within R S p r).at n tt).0
  step-Allows n (append_answer p r) o = ((handle_append_entries_response-Within R S p r).at n tt).0
  step-Allows n election_timeout o = ((handle_election_timeout-Within R S).at n tt).0
  step-Allows n heartbeat o = ((trigger_replication-Within R S).at n tt).0
  step-Allows n starting o = ((start-Within R S).at n tt).0
  step-Allows n stopping o = ((stop-Within R S).at n tt).0

module _ (R : Node → Node → Type 0) (S : Allows R) (E : AllowsElection R) where
  pub step-AllowsElection : (n : Node) (e : Event) → R n (step n e)
  step-AllowsElection n (vote_answer p r) =
      unfold step in ((handle_request_vote_response-Within R S E p r).at n tt).0
  step-AllowsElection n (request_vote now r) = step-Allows R S n (request_vote now r) tt
  step-AllowsElection n (append_entries now r) = step-Allows R S n (append_entries now r) tt
  step-AllowsElection n (install_snapshot f now p r) =
      step-Allows R S n (install_snapshot f now p r) tt
  step-AllowsElection n (pre_vote_answer p r) = step-Allows R S n (pre_vote_answer p r) tt
  step-AllowsElection n (append_answer p r) = step-Allows R S n (append_answer p r) tt
  step-AllowsElection n election_timeout = step-Allows R S n election_timeout tt
  step-AllowsElection n heartbeat = step-Allows R S n heartbeat tt
  step-AllowsElection n starting = step-Allows R S n starting tt
  step-AllowsElection n stopping = step-Allows R S n stopping tt

  pub run-AllowsElection : (n : Node) (es : List Event) → R n (run n es)
  unfolding run
  run-AllowsElection n [] = S.carries.same n
  run-AllowsElection n (e ∷ es) =
      S.carries.trans n (step n e) (run (step n e) es) (step-AllowsElection n e)
        (run-AllowsElection (step n e) es)
