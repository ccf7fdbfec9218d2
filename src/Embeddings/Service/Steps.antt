-- ===== src/Embeddings/Service/Steps.antt =====
-- Calls of `embed` that overlap: the count of active calls is the number of calls that wait.
use local_agent_runtime.Base.{
  ℕ, ◌≤◌, String, Text, ◌≡◌, refl, ap, List, [], ◌∷◌, ◌++◌, arith, Bool-cases, inl, inr, leb,
  length, length-append,
}
use local_agent_runtime.Failure.{Result, ok, err}
use local_agent_runtime.Embeddings.Vectors.{Floats}
use local_agent_runtime.Embeddings.Service.{
  EmbeddingService, EmbedRequest, EmbeddingCall, EmbeddingResult, checked_call, take_place,
  begin_embed, finish_embed,
}

-- The service with the calls that wait for their providers.
pub record Running : Type 0 where
  pub service : EmbeddingService
  pub waiting : List EmbeddingCall

-- The calls that wait after `begin_embed`.
abbrev pub settled_one : Result EmbeddingCall × EmbeddingService → List EmbeddingCall → Running
settled_one (err e, sv) waiting = record { service = sv; waiting = waiting }
settled_one (ok call, sv) waiting = record { service = sv; waiting = call ∷ waiting }

-- A request arrives, or the provider of some call that waits has answered, or failed, or has been
-- given up.
pub data Step (sha256 : Text → String) {V F : Type 0} (floats : Floats V F)
    : Running → Running → Type 0 where
  arrive :
      {r : Running} (args : EmbedRequest)
      → Step sha256 floats r (settled_one (begin_embed sha256 args r.service) r.waiting)
  depart :
      {r : Running} (before after : List EmbeddingCall) (call : EmbeddingCall)
      (outcome : Result (EmbeddingResult V))
      → r.waiting ≡ before ++ call ∷ after
      → Step sha256 floats r (record {
        service = (finish_embed floats call outcome r.service).1;
        waiting = before ++ after;
      })

pub data Reachable (sha256 : Text → String) {V F : Type 0} (floats : Floats V F)
    (start : EmbeddingService) : Running → Type 0 where
  began : Reachable sha256 floats start (record { service = start; waiting = [] })
  then_step :
      {r r' : Running}
      → Reachable sha256 floats start r
      → Step sha256 floats r r'
      → Reachable sha256 floats start r'

-- The calls that wait are counted, and are no more than the service allows.
pub record IsCounted (bound : ℕ) (r : Running) : Type 0 where
  pub count_known : r.service.active ≡ length r.waiting
  pub bounded : r.service.active ≤ r.service.max_concurrency
  pub kept_bound : r.service.max_concurrency ≡ bound

take_place-IsCounted :
    (bound : ℕ) (call : Result EmbeddingCall) (sv : EmbeddingService) (waiting : List EmbeddingCall)
    → IsCounted bound (record { service = sv; waiting = waiting })
    → IsCounted bound (settled_one (take_place call sv) waiting)
unfolding take_place
take_place-IsCounted bound (err e) sv waiting h = h
take_place-IsCounted bound (ok call) sv waiting h =
    elim (Bool-cases (leb sv.max_concurrency sv.active)) [
      | inl is_full ↦ rw is_full h
      | inr free ↦ rw free (record {
        count_known = omega (arith, h.count_known);
        bounded = ground arith;
        kept_bound = h.kept_bound;
      })
    ]

Step-IsCounted :
    (sha256 : Text → String) {V F : Type 0} (floats : Floats V F) (bound : ℕ) {r r' : Running}
    → Step sha256 floats r r'
    → IsCounted bound r
    → IsCounted bound r'
unfolding begin_embed finish_embed
Step-IsCounted sha256 floats bound {r} (arrive args) h =
    take_place-IsCounted bound (checked_call sha256 r.service args) r.service r.waiting h
Step-IsCounted sha256 floats bound {r} (depart before after call outcome e) h = record {
  count_known = omega (
    arith,
    h.count_known,
    ap length e,
    length-append before (call ∷ after),
    length-append before after,
  );
  bounded = omega (arith, h.bounded);
  kept_bound = h.kept_bound;
}

-- However calls of `embed` overlap, and whether they succeed, fail, time out or are cancelled, the
-- service counts exactly the calls that wait for a provider, and they are never more than its
-- bound.
pub Reachable-IsCounted :
    (sha256 : Text → String) {V F : Type 0} (floats : Floats V F) (start : EmbeddingService)
    → start.active ≡ 0
    → (r : Running) → Reachable sha256 floats start r
    → IsCounted start.max_concurrency r
Reachable-IsCounted sha256 floats start idle _ began = record {
  count_known = idle;
  bounded = omega (arith, idle);
  kept_bound = refl;
}
Reachable-IsCounted sha256 floats start idle _ (then_step {r = before} reached step) =
    Step-IsCounted sha256 floats start.max_concurrency step
      (Reachable-IsCounted sha256 floats start idle before reached)
