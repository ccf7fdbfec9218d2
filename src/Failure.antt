-- ===== src/Failure.antt =====
-- errors.py: the runtime's stable failures, and the other exceptions that its code can meet.
-- A function that may raise returns a `Result`.
use local_agent_runtime.Base.{ℕ, String, ◌≡◌, refl, ◌⊎◌, inl, inr, Bool, true, false}

pub data Failure : Type 0 where
  -- `RuntimeFailure(code, message, status_code)`
  runtime_failure : (code message : String) → (status_code : ℕ) → Failure
  -- `TimeoutError`, also of `asyncio.timeout`
  timed_out : Failure
  -- `asyncio.CancelledError`
  cancelled : Failure
  -- any other exception, by its class
  crash : String → Failure

pub data Result {ℓ} (A : Type ℓ) : Type ℓ where
  ok : A → Result A
  err : Failure → Result A

infixl 5 ◌>>=◌
module _ {ℓ κ} {A : Type ℓ} {B : Type κ} where
  -- what follows a call that may raise
  abbrev pub ◌>>=◌ : Result A → (A → Result B) → Result B
  ◌>>=◌ (err failure) rest = err failure
  ◌>>=◌ (ok value) rest = rest value

infixl 5 ◌>>◌
abbrev pub ◌>>◌ {κ} : {B : Type κ} → Result (Unit {0}) → Result B → Result B
checked >> rest = checked >>= λ _. rest

-- `if condition: raise failure`
abbrev pub raise_if : Bool → Failure → Result (Unit {0})
raise_if true e = err e
raise_if false e = ok tt

-- A sequence that returned, taken apart.
module _ {ℓ κ} {A : Type ℓ} {B : Type κ} where
  pub >>=-eq-ok :
      (call : Result A) (rest : A → Result B) {result : B}
      → (call >>= rest) ≡ ok result
      → (value : A) × (call ≡ ok value) × (rest value ≡ ok result)
  >>=-eq-ok (err failure) rest returned = cc
  >>=-eq-ok (ok value) rest returned = (value, refl, returned)

-- To split on a call and keep its equation.
pub Result-cases {ℓ} :
    {A : Type ℓ} (call : Result A)
    → ((e : Failure) × (call ≡ err e)) ⊎ ((value : A) × (call ≡ ok value))
Result-cases (err e) = inl (e, refl)
Result-cases (ok value) = inr (value, refl)

-- A check that let what follows return.
pub raise_if-passed {κ} :
    {B : Type κ} (condition : Bool) (e : Failure) (rest : Result B) {result : B}
    → (raise_if condition e >> rest) ≡ ok result
    → (condition ≡ false) × (rest ≡ ok result)
raise_if-passed true e rest returned = cc
raise_if-passed false e rest returned = (refl, returned)

pub ok-injective {ℓ} : {A : Type ℓ} {a b : A} → ok a ≡ ok b → a ≡ b
ok-injective h = cc

abbrev pub invalid_configuration : String → Failure
invalid_configuration message = runtime_failure "invalid_configuration" message 400

abbrev pub invalid_request : String → Failure
invalid_request message = runtime_failure "invalid_request" message 400

abbrev pub not_found : String → Failure
not_found message = runtime_failure "not_found" message 404

abbrev pub conflict : String → Failure
conflict message = runtime_failure "conflict" message 409
