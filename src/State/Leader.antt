-- ===== src/State/Leader.antt =====
-- packages/raft-core/src/state/LeaderState.ts: how far each peer of a leader has come.
-- The two `Map`s are functions: the code never iterates over them.
pub mod Sorting
pub mod Commit
pub mod Tracking
use compaction.Prelude.{
  ℕ, zero, suc, ◌+◌, ◌-◌, ◌/◌, max, Option, none, some, Bool, true, false, not, ◌&&◌, ◌||◌, List,
  [], ◌∷◌, ◌++◌, ltb, leb, ◌==◌, if◌then◌else◌, is_some, includes, length, filter, str_eq,
  get_elem?,
}
use compaction.Prelude.Exec.{
  Exec, Result, ok, err, leader_state, throw, throw_if, gets, modify, return, resume, ◌>>=◌, ◌>>◌,
}
use compaction.Storage.Meta.{NodeId}
use compaction.Log.Manager.{LogManager}
use compaction.Log.Manager.Queries.{get_term_at_index, get_last_index}
use compaction.State.Leader.Sorting.{to_set, sort_desc}

abbrev pub Indices : Type 0
Indices = NodeId → Option ℕ

pub record LeaderState : Type 0 where
  pub next_index : Indices
  pub match_index : Indices
  pub peers : List NodeId

-- `map.get(k) ?? 0`; `map.get(k)!` too, where `IsTracking` says that the value is there.
abbrev pub value : Option ℕ → ℕ
value none = 0
value (some n) = n

-- `map.set(k, v)`
abbrev pub assign : Indices → NodeId → ℕ → Indices
assign m k v j = if str_eq k j then some v else m j

-- The loop of `initialize`.
unfoldable pub fill : List NodeId → ℕ → Indices → Indices
fill [] v m = m
fill (p ∷ ps) v m = fill ps v (assign m p v)

unfoldable pub initialize : ℕ → LeaderState → LeaderState
initialize last_log_index s = record s {
  next_index = fill s.peers (last_log_index + 1) (λ j. none);
  match_index = fill s.peers 0 (λ j. none);
}

-- `new LeaderState(peers, lastLogIndex)`
unfoldable pub new : List NodeId → ℕ → LeaderState
unfolding initialize
new ps last_log_index =
    initialize last_log_index
      (record { next_index = λ j. none; match_index = λ j. none; peers = ps })

unfoldable pub ensure_valid_peer : NodeId → Exec LeaderState Unit
ensure_valid_peer p s = throw_if (not (includes s.peers p)) leader_state s

unfoldable pub get_next_index : NodeId → Exec LeaderState ℕ
unfolding ensure_valid_peer
get_next_index p = do ensure_valid_peer p; gets (λ s. value (s.next_index p))

unfoldable pub set_next_index : NodeId → ℕ → Exec LeaderState Unit
unfolding ensure_valid_peer
set_next_index p i = do
  ensure_valid_peer p
  matched ← gets (λ s. value (s.match_index p))
  modify (λ s. record s {
    next_index = assign s.next_index p (if leb i matched then matched + 1 else i);
  })

unfoldable pub decrement_next_index : NodeId → Exec LeaderState Unit
unfolding ensure_valid_peer get_next_index
decrement_next_index p = do
  ensure_valid_peer p
  current ← get_next_index p
  matched ← gets (λ s. value (s.match_index p))
  modify (λ s. record s { next_index = assign s.next_index p (max (matched + 1) (current - 1)) })

unfoldable pub get_match_index : NodeId → Exec LeaderState ℕ
unfolding ensure_valid_peer
get_match_index p = do ensure_valid_peer p; gets (λ s. value (s.match_index p))

unfoldable pub update_match_index : NodeId → ℕ → Exec LeaderState Unit
unfolding ensure_valid_peer
update_match_index p i = do
  ensure_valid_peer p
  matched ← gets (λ s. value (s.match_index p))
  if leb i matched
      then return tt
      else modify (λ s. record s {
        match_index = assign s.match_index p i;
        next_index = assign s.next_index p (i + 1);
      })

unfoldable pub reset : ℕ → LeaderState → LeaderState
unfolding initialize
reset last_log_index s = initialize last_log_index s

abbrev pub get_peers : LeaderState → List NodeId
get_peers s = s.peers

unfoldable pub add_peer : NodeId → ℕ → LeaderState → LeaderState
add_peer p last_log_index s = if includes s.peers p then s else record s {
  peers = s.peers ++ p ∷ [];
  next_index = assign s.next_index p (last_log_index + 1);
  match_index = assign s.match_index p 0;
}

-- A call of the log, which only reads it.
abbrev pub reading : {A S : Type 0} → LogManager → Exec LogManager A → Exec S A
reading log f s = ((f log).0, s)

-- The loop of `findLastIndexOfTerm`, from index `i` down to 1.
abbrev judge : ℕ → ℕ → ℕ → Exec LeaderState (Option ℕ) → Exec LeaderState (Option ℕ)
judge i t found rest =
    if found == t then return (some i) else if ltb found t then return none else rest

pub find_from : ℕ → ℕ → LogManager → Exec LeaderState (Option ℕ)
find_from zero t log = return none
find_from (suc i) t log = do
  found ← reading log (get_term_at_index (suc i))
  judge (suc i) t (value found) (find_from i t log)

unfoldable pub find_last_index_of_term : ℕ → LogManager → Exec LeaderState (Option ℕ)
unfolding get_last_index
find_last_index_of_term t log = do i ← reading log get_last_index; find_from i t log

abbrev set_after : NodeId → ℕ → Option ℕ → Exec LeaderState Unit
set_after p conflict none = set_next_index p conflict
set_after p conflict (some i) = set_next_index p (i + 1)

unfoldable pub update_next_index_with_conflict : NodeId → ℕ → ℕ → LogManager → Exec LeaderState Unit
unfolding ensure_valid_peer set_next_index get_next_index
update_next_index_with_conflict p conflict_index conflict_term log = do
  ensure_valid_peer p
  if conflict_term == 0
      then set_next_index p conflict_index
      else do found ← find_last_index_of_term conflict_term log; set_after p conflict_index found
  now ← get_next_index p
  if ltb now 1 then set_next_index p 1 else return tt

-- `Math.floor((voters.length + 1) / 2) + 1`
abbrev pub majority_count : List NodeId → ℕ
majority_count voters = (length voters + 1) / 2 + 1

-- The leader's own last index, and what each voter has matched.
abbrev pub match_values : Indices → List NodeId → List ℕ
match_values m [] = []
match_values m (v ∷ vs) = value (m v) ∷ match_values m vs

-- `values.filter((v) => v >= i).length`
abbrev pub count_ge : ℕ → List ℕ → ℕ
count_ge i [] = 0
count_ge i (v ∷ vs) = if leb i v then suc (count_ge i vs) else count_ge i vs

abbrev pub is_positive : ℕ → Bool
is_positive i = ltb 0 i

-- One candidate: `continue` if its term is another, else return it if it has a majority.
abbrev try_index : ℕ → Option ℕ → ℕ → ℕ → ℕ → Exec LeaderState ℕ → Exec LeaderState ℕ
try_index i none current count majority rest = rest
try_index i (some t) current count majority rest =
    if (t == current) && leb majority count then return i else rest

pub first_committed : List ℕ → ℕ → List ℕ → ℕ → LogManager → Exec LeaderState ℕ
first_committed [] current values majority log = return 0
first_committed (i ∷ is) current values majority log = do
  t ← reading log (get_term_at_index i)
  try_index i t current (count_ge i values) majority
      (first_committed is current values majority log)

unfoldable pub calculate_commit_index : ℕ → LogManager → List NodeId → Exec LeaderState ℕ
unfolding get_last_index
calculate_commit_index current log voters = do
  leader_last ← reading log get_last_index
  values ← gets (λ s. leader_last ∷ match_values s.match_index voters)
  first_committed (sort_desc (filter is_positive (to_set values))) current values
      (majority_count voters) log

-- How many of the voters have a matched index, and one of at least `i`.
abbrev pub count_replicated : ℕ → Indices → List NodeId → ℕ
count_replicated i m [] = 0
count_replicated i m (v ∷ vs) =
    if is_some (m v) && leb i (value (m v))
    then suc (count_replicated i m vs)
    else count_replicated i m vs

unfoldable pub is_replicated_on_majority : ℕ → List NodeId → LeaderState → Bool
is_replicated_on_majority i voters s =
    leb (majority_count voters) (1 + count_replicated i s.match_index voters)

-- The matched indices of the voters that have one.
abbrev pub present_values : Indices → List NodeId → List ℕ
present_values m [] = []
present_values m (v ∷ vs) = elim (m v) [
  | some n ↦ n ∷ present_values m vs
  | none ↦ present_values m vs
]

abbrev defined : Option ℕ → Exec LeaderState ℕ
defined none = throw leader_state
defined (some r) = return r

unfoldable pub get_majority_match_index : ℕ → List NodeId → Exec LeaderState ℕ
get_majority_match_index leader_last voters = do
  values ← gets (λ s. sort_desc (leader_last ∷ present_values s.match_index voters))
  defined (get_elem? values (majority_count voters - 1))

-- `peers.every((p) => getMatchIndex(p) >= index)`
abbrev every_matched : ℕ → Indices → List NodeId → Bool
every_matched i m [] = true
every_matched i m (p ∷ ps) = leb i (value (m p)) && every_matched i m ps

unfoldable pub is_fully_replicated : ℕ → LeaderState → Bool
is_fully_replicated i s = every_matched i s.match_index s.peers

unfoldable pub get_peers_behind : ℕ → LeaderState → List NodeId
get_peers_behind i s = filter (λ p. ltb (value (s.match_index p)) i) s.peers
