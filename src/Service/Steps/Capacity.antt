-- ===== src/Service/Steps/Capacity.antt =====
-- The number of sessions that a service holds.
use mathlib.Core.Path.{subst}
use local_agent_runtime.Base.{
  lookup-put_same, length-put, length-put_found, length-without, ℕ, ◌≤◌, ◌<◌, String, ◌≡◌, refl,
  not, ◌&&◌, List, [], ◌∷◌, arith, Bool-cases, inl, inr, leb, length, put, without,
}
use local_agent_runtime.Failure.{Result, ok, err}
use local_agent_runtime.Effect.{Action, lift, ◌>>=◌}
use local_agent_runtime.Effect.Keeps.{Keeps, after_lift, after_refuse_if, keeps_rules}
use local_agent_runtime.Session.{SessionRecord}
use local_agent_runtime.Session.Advance.Turn.{advance}
use local_agent_runtime.Service.{
  Service, placed, with_record, schedule, ensure_schedulable, is_expired,
}
use local_agent_runtime.Service.Create.{Surroundings, NewSession, Admitted, evict, build_record}
use local_agent_runtime.Service.Opening.{
  evicted, opened, enter, create_admitted, create_session, opening_size,
}
use local_agent_runtime.Service.Requests.{
  submit_body, submit_tool_results, continue_body, continue_session, cancel_body, cancel,
}
use local_agent_runtime.Service.Activation.Policy.{start_service-fresh}
use local_agent_runtime.Service.Steps.{
  Step, create_step, admitted_step, session_step, events_step, submit_step, continue_step,
  cancel_step, activation_step, select_step, turn_step, Reachable, just_started, then_step,
}
use local_agent_runtime.Service.Steps.Lookups.{
  find_record-Keeps, events_after-Keeps, with_record-Keeps,
}
use local_agent_runtime.Service.Steps.Logged.{set_adapter_activation-sessions}

abbrev HasCapacity : Service → Type 0
HasCapacity sv = length sv.sessions ≤ 128

length-evict : (now : ℕ) (m : List (String × SessionRecord)) → length (evict now m) ≤ length m
unfolding evict
length-evict now [] = omega arith
length-evict now ((id, s) ∷ rest) = elim (Bool-cases (is_expired now s)) [
  | inl old ↦ rw old (omega (arith, length-evict now rest))
  | inr recent ↦ rw recent (omega (arith, length-evict now rest))
]

placed-length :
    (id : String) (sv : Service) (p : Result (Unit {0}) × SessionRecord)
    → length (placed id sv p).1.sessions ≡ length (put id p.1 sv.sessions)
unfolding placed
placed-length id sv (ok _, s) = refl
placed-length id sv (err e, s) = refl

dropped-HasCapacity :
    (id : String) (sv : Service)
    → HasCapacity sv
    → HasCapacity (record sv { sessions = without id sv.sessions })
dropped-HasCapacity id sv h = omega (arith, h, length-without id sv.sessions)

with_record-HasCapacity :
    (now : ℕ) (id : String) (body : Service → Action SessionRecord (Unit {0}))
    → Keeps HasCapacity (with_record now id body)
with_record-HasCapacity now id body =
    with_record-Keeps HasCapacity dropped-HasCapacity now id body λ sv s found h.
      let p = body sv s in
      omega (arith, placed-length id sv p, length-put_found id p.1 s sv.sessions found, h)

-- A table with a free place, and one more session in it.
module _ (sv : Service) (free : length sv.sessions < 128) where
  opened-HasCapacity :
      (now : ℕ) (id : String) (s : SessionRecord) → HasCapacity (opened now id s sv).1
  unfolding opened
  opened-HasCapacity now id s =
      let joined : Service = record sv { sessions = put id s sv.sessions } in
      let p = schedule now joined s in
      omega (
        arith,
        placed-length id joined p,
        length-put_found id p.1 s joined.sessions (lookup-put_same id s sv.sessions),
        length-put id s sv.sessions,
        free,
      )

  below : HasCapacity sv
  below = omega (arith, free)

  enter-HasCapacity :
      (now : ℕ) (id : String) (s : SessionRecord) → HasCapacity (enter now id s sv).1
  unfolding enter
  enter-HasCapacity now id s = after_lift HasCapacity (opening_size s) _ sv below λ _ _.
      after_lift HasCapacity (ensure_schedulable sv s) (λ _. opened now id s) sv below
        λ _ _. opened-HasCapacity now id s

  built-HasCapacity :
      (env : Surroundings) (now : ℕ) (id : String) (args : NewSession) (a : Admitted)
      → HasCapacity ((lift (build_record env now id args a) >>= enter now id) sv).1
  built-HasCapacity env now id args a =
      after_lift HasCapacity (build_record env now id args a) (enter now id) sv below
        λ s _. enter-HasCapacity now id s

create_admitted-HasCapacity :
    (env : Surroundings) (now : ℕ) (id : String) (args : NewSession) (a : Admitted)
    → Keeps HasCapacity (create_admitted env now id args a)
unfolding create_admitted evicted
create_admitted-HasCapacity env now id args a = record {
  at = λ sv h.
      let cleared : Service = record sv { sessions = evict now sv.sessions } in
      elim (Bool-cases (leb 128 (length cleared.sessions))) [
        | inl full ↦ rw full (omega (arith, h, length-evict now sv.sessions))
        | inr room ↦ rw room (
            after_refuse_if HasCapacity
              (a.private_processing && not a.profile.allow_private_processing) _ _ cleared
              (below cleared (ground arith))
              (built-HasCapacity cleared (ground arith) env now id args a))
      ];
}

create_session-HasCapacity :
    (env : Surroundings) (now : ℕ) (id : String) (args : NewSession)
    → Keeps HasCapacity (create_session env now id args)
unfolding create_session
create_session-HasCapacity env now id args =
    search (keeps_rules, create_admitted-HasCapacity) depth 12

Step-HasCapacity : {sv sv' : Service} → Step sv sv' → HasCapacity sv → HasCapacity sv'
unfolding submit_tool_results continue_session cancel
Step-HasCapacity {sv} (create_step env now id args) h =
    (create_session-HasCapacity env now id args).at sv h
Step-HasCapacity {sv} (admitted_step {a = a} env before now id args _) h =
    (create_admitted-HasCapacity env now id args a).at sv h
Step-HasCapacity {sv} (session_step now id) h =
    (find_record-Keeps HasCapacity dropped-HasCapacity now id).at sv h
Step-HasCapacity {sv} (events_step now id after) h =
    (events_after-Keeps HasCapacity dropped-HasCapacity now id after).at sv h
Step-HasCapacity {sv} (submit_step now id results) h =
    (with_record-HasCapacity now id (submit_body now results)).at sv h
Step-HasCapacity {sv} (continue_step now supported id prompt effort) h =
    (with_record-HasCapacity now id (continue_body now supported prompt effort)).at sv h
Step-HasCapacity {sv} (cancel_step validators now ran id) h =
    (with_record-HasCapacity now id (cancel_body validators now ran)).at sv h
Step-HasCapacity {sv} (activation_step env port now id enabled) h =
    (set_adapter_activation-sessions (λ m. length m ≤ 128) env port now id enabled).at sv h
Step-HasCapacity {sv} (select_step write id answer _) h = h
Step-HasCapacity {sv} (turn_step {s = s} validators adapter now id found active runs) h =
    omega (arith, h, length-put_found id (advance validators now adapter s) s sv.sessions found)

-- Whatever requests and turns a service has answered since its start, in any order, it holds 128
-- sessions at most, also where requests that create sessions overlap.
pub Reachable-sessions : (sv : Service) → Reachable sv → length sv.sessions ≤ 128
Reachable-sessions sv (just_started configuration port h) =
    let (state, same, _) = start_service-fresh configuration port sv h in
    subst HasCapacity same (omega arith)
Reachable-sessions _ (then_step {sv = before} r step) =
    Step-HasCapacity step (Reachable-sessions before r)
