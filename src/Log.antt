-- ===== src/Log.antt =====
-- packages/raft-core/src/log/LogEntry.ts: the entries of the replicated log.
pub mod Validation
pub mod Manager
use compaction.Prelude.{
  ℕ, zero, suc, ◌+◌, Option, none, some, Bool, true, false, not, ◌&&◌, ◌||◌, List, [], ◌∷◌, ltb,
  ◌==◌, if◌then◌else◌, String, str_eq, length, is_some,
}
use compaction.Prelude.Exec.{Result, ok, err, invalid, type_error}
use compaction.Config.{ClusterMember, ClusterConfig}

-- `payload` is any JSON value for the application: its text.
pub record Command : Type 0 where
  pub type : String
  pub payload : String

pub data LogEntryType : Type 0 where
  command config noop droplog : LogEntryType

pub record LogEntry : Type 0 where
  pub term : ℕ
  pub index : ℕ
  pub type : LogEntryType
  pub command : Option Command
  pub config : Option ClusterConfig
  pub start_idx : Option ℕ
  pub final_idx : Option ℕ

abbrev refuse_if : Bool → Result (Unit {0}) → Result (Unit {0})
refuse_if true r = err invalid
refuse_if false r = r

-- `!entry.command || !entry.command.type`
abbrev bad_command : Option Command → Bool
bad_command none = true
bad_command (some c) = str_eq c.type ""

-- `!entry.startIdx`: undefined or 0
abbrev falsy : Option ℕ → Bool
falsy none = true
falsy (some n) = n == 0

abbrev exceeds : Option ℕ → Option ℕ → Bool
exceeds (some a) (some b) = ltb b a
exceeds _ _ = false

validate_type : LogEntryType → LogEntry → Result (Unit {0})
validate_type LogEntryType.command e = refuse_if (bad_command e.command) (ok tt)
validate_type LogEntryType.config e = refuse_if (not (is_some e.config)) (ok tt)
validate_type noop e = ok tt
validate_type droplog e =
    refuse_if (falsy e.start_idx || falsy e.final_idx)
      (refuse_if (exceeds e.start_idx e.final_idx) (ok tt))

-- The tests on `term` and `index` refuse what is no non-negative integer; every ℕ passes them.
unfoldable pub validate_log_entry : LogEntry → Result (Unit {0})
unfolding validate_type
validate_log_entry e = validate_type e.type e

abbrev pub then_check : Result (Unit {0}) → Result (Unit {0}) → Result (Unit {0})
then_check (ok u) r = r
then_check (err e) r = err e

abbrev pub follows : LogEntry → LogEntry → Bool
follows prev entry = (entry.index == prev.index + 1) && not (ltb entry.term prev.term)

-- The iterations of the loop after the first.
pub validate_after : LogEntry → List LogEntry → Result (Unit {0})
validate_after prev [] = ok tt
validate_after prev (e ∷ es) =
    let rest = validate_after e es in
    then_check (validate_log_entry e) (refuse_if (not (follows prev e)) rest)

unfoldable pub validate_log_sequence : List LogEntry → Result (Unit {0})
unfolding validate_after
validate_log_sequence [] = ok tt
validate_log_sequence (e ∷ es) = then_check (validate_log_entry e) (validate_after e es)

-- The text of a payload is the text that `JSON.stringify` gives.
unfoldable pub commands_equal : Command → Command → Bool
commands_equal a b = if not (str_eq a.type b.type) then false else str_eq a.payload b.payload

abbrev pub same_members : List ClusterMember → List ClusterMember → Bool
same_members [] [] = true
same_members (a ∷ xs) (b ∷ ys) =
    (str_eq a.id b.id && str_eq a.address b.address) && same_members xs ys
same_members _ _ = false

-- Equal texts of two configurations: the same members in the same order.
abbrev pub same_config : Option ClusterConfig → Option ClusterConfig → Bool
same_config none none = true
same_config (some a) (some b) = same_members a.voters b.voters && same_members a.learners b.learners
same_config _ _ = false

abbrev pub same_type : LogEntryType → LogEntryType → Bool
same_type LogEntryType.command LogEntryType.command = true
same_type LogEntryType.config LogEntryType.config = true
same_type noop noop = true
same_type droplog droplog = true
same_type _ _ = false

-- `commandsEqual(entry1.command!, entry2.command!)` reads a field of `undefined` where one is absent.
abbrev pub equal_payloads : Option Command → Option Command → Result Bool
equal_payloads (some a) (some b) = ok (commands_equal a b)
equal_payloads _ _ = err type_error

equal_of_type : LogEntryType → LogEntry → LogEntry → Result Bool
equal_of_type LogEntryType.config a b = ok (same_config a.config b.config)
equal_of_type noop a b = ok true
equal_of_type LogEntryType.command a b = equal_payloads a.command b.command
equal_of_type droplog a b = equal_payloads a.command b.command

unfoldable pub entries_equal : LogEntry → LogEntry → Result Bool
unfolding equal_of_type commands_equal
entries_equal a b =
    if not (a.term == b.term) || not (a.index == b.index)
    then ok false
    else if not (same_type a.type b.type)
    then ok false
    else equal_of_type a.type a b

abbrev and_then : Result Bool → Result Bool → Result Bool
and_then (ok true) r = r
and_then (ok false) r = ok false
and_then (err e) r = err e

all_equal : List LogEntry → List LogEntry → Result Bool
all_equal (a ∷ xs) (b ∷ ys) = let rest = all_equal xs ys in and_then (entries_equal a b) rest
all_equal _ _ = ok true

unfoldable pub logs_equal : List LogEntry → List LogEntry → Result Bool
unfolding all_equal
logs_equal xs ys = if not (length xs == length ys) then ok false else all_equal xs ys
