-- ===== src/Log/Validation.antt =====
-- LogEntry.ts: what `validateLogSequence` accepts, and where `entriesEqual` throws.
use compaction.Prelude.{
  ap, String, str_eq, eq_iff, ℕ, ◌+◌, ◌≤◌, ◌≡◌, Option, none, some, true, not, ◌&&◌, List, [], ◌∷◌,
  All, arith, if◌then◌else◌, is_some, refl,
}
use compaction.Prelude.Exec.{ok, err, type_error}
use compaction.Config.{ClusterMember, ClusterConfig}
use compaction.Storage.Log.Invariant.{Contiguous}
use compaction.Log.{
  same_config, LogEntry, Command, droplog, validate_log_entry, validate_log_sequence,
  validate_after, entries_equal, commands_equal, same_type, same_members, equal_payloads,
}

-- What an entry of each type has to carry.
abbrev pub IsFormed : LogEntry → Type 0
IsFormed e = validate_log_entry e ≡ ok tt

-- Every later entry has at least the term of an earlier one.
abbrev pub IsAscending : List LogEntry → Type 0
IsAscending [] = Unit
IsAscending (e ∷ es) = All (λ f. e.term ≤ f.term) es × IsAscending es

abbrev pub start_of : List LogEntry → ℕ
start_of [] = 0
start_of (e ∷ es) = e.index

pub record IsSequence (es : List LogEntry) : Type 0 where
  pub formed : All IsFormed es
  pub contiguous : Contiguous (start_of es) es
  pub ascending : IsAscending es

lower : (t u : ℕ) (es : List LogEntry) → t ≤ u → All (λ f. u ≤ f.term) es → All (λ f. t ≤ f.term) es
lower t u [] h a = tt
lower t u (e ∷ es) h a = (omega (arith, a.0), lower t u es h a.1)

after_lem :
    (p : LogEntry) (es : List LogEntry)
    → validate_after p es ≡ ok tt
    → All IsFormed es × Contiguous (p.index + 1) es × All (λ f. p.term ≤ f.term) es × IsAscending es
unfolding validate_after
after_lem p [] h = (tt, tt, tt, tt)
after_lem p (e ∷ es) h =
    let (f, c, a, s) = after_lem e es (ground arith) in
    let le : p.term ≤ e.term = ground arith in
    let at : e.index ≡ p.index + 1 = ground arith in
    ((ground arith, f), (at, rw (← at) c), (le, lower p.term e.term es le a), (a, s))

-- A sequence that the validation accepts holds valid entries whose indices count up from the first
-- one's and whose terms never fall between any two of them.
pub validate_log_sequence-IsSequence :
    (es : List LogEntry) → validate_log_sequence es ≡ ok tt → IsSequence es
unfolding validate_log_sequence
validate_log_sequence-IsSequence [] h = record { formed = tt; contiguous = tt; ascending = tt }
validate_log_sequence-IsSequence (e ∷ es) h =
    let (f, c, a, s) = after_lem e es (ground arith) in
    record { formed = (ground arith, f); contiguous = (refl, c); ascending = (a, s) }

str_refl : (a : String) → str_eq a a ≡ true
str_refl a = ground (arith, eq_iff a a)

same_members_refl : (ms : List ClusterMember) → same_members ms ms ≡ true
same_members_refl [] = refl
same_members_refl (m ∷ ms) = ground (arith, str_refl m.id, str_refl m.address, same_members_refl ms)

config_refl : (o : Option ClusterConfig) → same_config o o ≡ true
config_refl none = refl
config_refl (some c) = ground (arith, same_members_refl c.voters, same_members_refl c.learners)

commands_equal_refl : (c : Command) → commands_equal c c ≡ true
unfolding commands_equal
commands_equal_refl c = ground (arith, str_refl c.type, str_refl c.payload)

payloads_refl :
    (o : Option Command)
    → equal_payloads o o ≡ (if not (is_some o) then err type_error else ok true)
payloads_refl none = refl
payloads_refl (some c) = ap ok (commands_equal_refl c)

-- A valid entry compares equal to itself, save that the comparison throws on a DROPLOG entry
-- without a command.
pub entries_equal_self :
    (e : LogEntry)
    → validate_log_entry e ≡ ok tt
    → entries_equal e e
      ≡ (if same_type e.type droplog && not (is_some e.command) then err type_error else ok true)
unfolding entries_equal validate_log_entry
entries_equal_self e h = ground (arith, config_refl e.config, payloads_refl e.command)
