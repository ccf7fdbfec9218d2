-- ===== src/Effect/Keeps.antt =====
-- Invariants of actions: one rule for each way to build an action.
use local_agent_runtime.Base.{◌≡◌, refl, ap, Bool, true, false, if◌then◌else◌}
use local_agent_runtime.Failure.{Failure, Result, ok, err}
use local_agent_runtime.Effect.{Action, pure, raise, lift, gets, modify, refuse_if, resume, ◌>>=◌}

-- `m` keeps `P`, whether it returns or raises.
pub record Keeps {S A : Type 0} (P : S → Type 0) (m : Action S A) : Type 0 where
  pub at : (s : S) → P s → P (m s).1

module _ {S A : Type 0} {P : S → Type 0} where
  pub Keeps-pure : (a : A) → Keeps {S = S} P (pure a)
  Keeps-pure a = record { at = λ s h. h }

  pub Keeps-raise : (e : Failure) → Keeps {A = A} P (raise e)
  Keeps-raise e = record { at = λ s h. h }

  pub Keeps-lift : (m : Result A) → Keeps {S = S} P (lift m)
  Keeps-lift m = record { at = λ s h. h }

  pub Keeps-gets : (f : S → A) → Keeps P (gets f)
  Keeps-gets f = record { at = λ s h. h }

  pub Keeps-if :
      (b : Bool) (m n : Action S A) → Keeps P m → Keeps P n → Keeps P (if b then m else n)
  Keeps-if true m n km kn = km
  Keeps-if false m n km kn = kn

-- A property of the state after a check that may refuse, and what comes after it.
pub after_lift :
    {S A B : Type 0} (P : S → Type 0) (r : Result A) (f : A → Action S B) (s : S)
    → P s
    → ((a : A) → r ≡ ok a → P (f a s).1)
    → P ((lift r >>= f) s).1
after_lift P (ok a) f s h k = k a refl
after_lift P (err e) f s h k = h

pub after_refuse_if :
    {S B : Type 0} (P : S → Type 0) (b : Bool) (e : Failure) (f : Unit {0} → Action S B) (s : S)
    → P s
    → P (f tt s).1
    → P ((refuse_if b e >>= f) s).1
after_refuse_if P true e f s h k = h
after_refuse_if P false e f s h k = k

-- A property of the state after either branch.
pub after_if :
    {S A : Type 0} (P : S → Type 0) (b : Bool) (p q : Result A × S)
    → P p.1
    → P q.1
    → P (if b then p else q).1
after_if P true p q hp hq = hp
after_if P false p q hp hq = hq

module _ {S : Type 0} {P : S → Type 0} where
  pub Keeps-modify : (f : S → S) → ((s : S) → P s → P (f s)) → Keeps P (modify f)
  Keeps-modify f h = record { at = h }

  pub Keeps-refuse_if : (b : Bool) (e : Failure) → Keeps {S = S} P (refuse_if b e)
  Keeps-refuse_if true e = record { at = λ s h. h }
  Keeps-refuse_if false e = record { at = λ s h. h }

module _ {S A B : Type 0} {P : S → Type 0} where
  pub Keeps-resume :
      (r : Result A × S) (f : A → Action S B) → P r.1 → ((a : A) → Keeps P (f a)) → P (resume r f).1
  Keeps-resume (ok a, s) f h k = (k a).at s h
  Keeps-resume (err e, s) f h k = h

  pub Keeps-bind :
      (m : Action S A) (f : A → Action S B)
      → Keeps P m
      → ((a : A) → Keeps P (f a))
      → Keeps P (m >>= f)
  Keeps-bind m f km kf = record { at = λ s h. Keeps-resume (m s) f (km.at s h) kf }

  -- The rest may use that the value did not come from an exception.
  pub Keeps-bind-lift :
      (m : Result A) (f : A → Action S B)
      → ((a : A) → m ≡ ok a → Keeps P (f a))
      → Keeps P (lift m >>= f)
  Keeps-bind-lift (ok a) f k = record { at = λ s h. (k a refl).at s h }
  Keeps-bind-lift (err e) f k = record { at = λ s h. h }

module _ {S A B : Type 0} where
  -- Inversion of a sequence that returned.
  pub resume-ok :
      (r : Result A × S) (f : A → Action S B) {b : B} {t : S}
      → resume r f ≡ (ok b, t)
      → (a : A) × (s : S) × (r ≡ (ok a, s)) × (f a s ≡ (ok b, t))
  resume-ok (ok a, s) f h = (a, s, refl, h)
  resume-ok (err e, s) f h = cc (ap (λ (r : Result B × S). r.0) h)

pub ruleset keeps_rules = (
  Keeps-pure, Keeps-raise, Keeps-lift, Keeps-gets, Keeps-if, Keeps-modify, Keeps-refuse_if,
  Keeps-bind,
)
