-- ===== src/Effect.antt =====
-- A method that changes an object and may raise. What was written before a raise stays written,
-- so the state comes back beside the failure too.
pub mod Keeps
use local_agent_runtime.Base.{Bool, true, false, Option, none, some, if◌then◌else◌}
use local_agent_runtime.Failure.{Failure, Result, ok, err}

abbrev pub Action : Type 0 → Type 0 → Type 0
Action S A = S → Result A × S

module _ {S A : Type 0} where
  abbrev pub pure : A → Action S A
  pure a s = (ok a, s)

  abbrev pub raise : Failure → Action S A
  raise e s = (err e, s)

  abbrev pub lift : Result A → Action S A
  lift m s = (m, s)

  abbrev pub gets : (S → A) → Action S A
  gets f s = (ok (f s), s)

module _ {S : Type 0} where
  abbrev pub modify : (S → S) → Action S (Unit {0})
  modify f s = (ok tt, f s)

  -- `if condition: raise failure`
  abbrev pub refuse_if : Bool → Failure → Action S (Unit {0})
  refuse_if true e s = (err e, s)
  refuse_if false e s = (ok tt, s)

module _ {S A B : Type 0} where
  abbrev pub resume : Result A × S → (A → Action S B) → Result B × S
  resume (ok a, s) f = f a s
  resume (err e, s) f = (err e, s)

  infixl 5 ◌>>=◌ ◌>>◌
  abbrev pub ◌>>=◌ : Action S A → (A → Action S B) → Action S B
  ◌>>=◌ m f s = resume (m s) f

  abbrev pub ◌>>◌ : Action S A → Action S B → Action S B
  m >> k = m >>= λ _. k
