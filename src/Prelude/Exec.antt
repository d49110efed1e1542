-- ===== src/Prelude/Exec.antt =====
-- util/Error.ts, and methods that mutate an object and may throw. What was written before a throw
-- stays written, so the state comes back beside the error too.
use mathlib.Core.Bool.{Bool, true, false}

-- The error classes of util/Error.ts that the modelled code throws, without their messages.
-- `invalid` stands for a plain `Error`, `type_error` for the engine's own.
pub data Error : Type 0 where
  storage log_inconsistency persistent_state volatile_state leader_state raft : Error
  invalid type_error : Error

pub data Result {ℓ} (A : Type ℓ) : Type ℓ where
  ok : A → Result A
  err : Error → Result A

abbrev pub Exec {ℓ} : Type ℓ → Type ℓ → Type ℓ
Exec S A = S → Result A × S

module _ {ℓ} {S A : Type ℓ} where
  abbrev pub return : A → Exec S A
  return a s = (ok a, s)

  abbrev pub throw : Error → Exec S A
  throw e s = (err e, s)

  abbrev pub gets : (S → A) → Exec S A
  gets f s = (ok (f s), s)

module _ {ℓ} {S A B : Type ℓ} where
  abbrev pub resume : (A → Exec S B) → Result A × S → Result B × S
  resume f (ok a, s) = f a s
  resume f (err e, s) = (err e, s)

  infixl 10 ◌>>=◌ ◌>>◌
  abbrev pub ◌>>=◌ : Exec S A → (A → Exec S B) → Exec S B
  ◌>>=◌ m f s = resume f (m s)

  abbrev pub ◌>>◌ : Exec S A → Exec S B → Exec S B
  m >> n = m >>= λ _. n

-- `if (test) throw error;`
abbrev pub throw_if {ℓ} : {S : Type ℓ} → Bool → Error → Exec S Unit
throw_if true e s = (err e, s)
throw_if false e s = (ok tt, s)

abbrev pub modify {ℓ} : {S : Type ℓ} → (S → S) → Exec S Unit
modify f s = (ok tt, f s)

-- a successful outcome, and its state
abbrev pub IsOk {ℓ} : {A : Type ℓ} → Result A → Type 0
IsOk (ok a) = Unit
IsOk (err e) = ⊥
