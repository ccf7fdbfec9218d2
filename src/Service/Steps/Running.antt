-- ===== src/Service/Steps/Running.antt =====
-- The number of sessions of a service that run at once.
use mathlib.Core.Path.{subst}
use local_agent_runtime.Base.{
  ℕ, ◌+◌, ◌≤◌, ◌<◌, String, ◌≡◌, refl, ap, none, some, List, [], ◌∷◌, arith, Bool-cases, inl, inr,
  lookup, lookup-put_same, put, without, str_eq,
}
use local_agent_runtime.Failure.{Result, ok, err}
use local_agent_runtime.Effect.{Action, lift, ◌>>=◌}
use local_agent_runtime.Effect.Keeps.{Keeps, after_lift, keeps_rules}
use local_agent_runtime.Session.{SessionRecord}
use local_agent_runtime.Session.Advance.Turn.{advance}
use local_agent_runtime.Service.{
  Service, running_count, placed, with_record, schedule, ensure_schedulable, is_expired,
}
use local_agent_runtime.Service.Create.{Surroundings, NewSession, Admitted, evict, build_record}
use local_agent_runtime.Service.Create.Admission.{build_record-status}
use local_agent_runtime.Service.Opening.{
  evicted, opened, enter, create_admitted, create_session, opening_size,
}
use local_agent_runtime.Service.Requests.{
  submit_body, submit_tool_results, continue_body, continue_session, cancel_body, cancel,
}
use local_agent_runtime.Service.Requests.Running.{
  runs, runs-le, MayRun, ensure_schedulable-runs, submit_body-MayRun, continue_body-MayRun,
  cancel_body-MayRun,
}
use local_agent_runtime.Service.Activation.Policy.{start_service-fresh}
use local_agent_runtime.Service.Steps.{
  Step, create_step, admitted_step, session_step, events_step, submit_step, continue_step,
  cancel_step, activation_step, select_step, turn_step, Reachable, just_started, then_step,
}
use local_agent_runtime.Service.Steps.Lookups.{
  find_record-Keeps, events_after-Keeps, with_record-Keeps,
}
use local_agent_runtime.Service.Steps.Logged.{set_adapter_activation-sessions}

abbrev HasPace : Service → Type 0
HasPace sv = running_count sv.sessions ≤ 8

running_count-put :
    (k : String) (v : SessionRecord) (m : List (String × SessionRecord))
    → running_count (put k v m) ≤ running_count m + runs v
running_count-put k v [] = omega arith
running_count-put k v ((j, w) ∷ m) = elim (Bool-cases (str_eq j k)) [
  | inl same ↦ rw same (omega arith)
  | inr other ↦ rw other (omega (arith, running_count-put k v m))
]

running_count-put_found :
    (k : String) (v w : SessionRecord) (m : List (String × SessionRecord))
    → lookup k m ≡ some w
    → running_count (put k v m) + runs w ≡ running_count m + runs v
running_count-put_found k v w [] h = cc
running_count-put_found k v w ((j, u) ∷ m) h = elim (Bool-cases (str_eq j k)) [
  | inl same ↦
      let there : some u ≡ some w = rw same at h in
      let one : runs u ≡ runs w = ap (λ o. elim o [ none ↦ 0 | some s ↦ runs s ]) there in
      rw same (omega (arith, one))
  | inr other ↦ rw other (omega (arith, running_count-put_found k v w m (rw other at h)))
]

running_count-without :
    (k : String) (m : List (String × SessionRecord)) → running_count (without k m) ≤ running_count m
running_count-without k [] = omega arith
running_count-without k ((j, w) ∷ m) = elim (Bool-cases (str_eq j k)) [
  | inl same ↦ rw same (omega (arith, running_count-without k m))
  | inr other ↦ rw other (omega (arith, running_count-without k m))
]

running_count-evict :
    (now : ℕ) (m : List (String × SessionRecord)) → running_count (evict now m) ≤ running_count m
unfolding evict
running_count-evict now [] = omega arith
running_count-evict now ((id, s) ∷ rest) = elim (Bool-cases (is_expired now s)) [
  | inl old ↦ rw old (omega (arith, running_count-evict now rest))
  | inr recent ↦ rw recent (omega (arith, running_count-evict now rest))
]

placed-count :
    (id : String) (sv : Service) (p : Result (Unit {0}) × SessionRecord)
    → running_count (placed id sv p).1.sessions ≡ running_count (put id p.1 sv.sessions)
unfolding placed
placed-count id sv (ok _, s) = refl
placed-count id sv (err e, s) = refl

-- A record that a request put back in its place.
placed-HasPace :
    (id : String) (sv : Service) (s : SessionRecord) (p : Result (Unit {0}) × SessionRecord)
    → lookup id sv.sessions ≡ some s
    → HasPace sv
    → MayRun sv s p.1
    → HasPace (placed id sv p).1
placed-HasPace id sv s p found h (inl le) =
    let count = running_count-put_found id p.1 s sv.sessions found in
    omega (arith, placed-count id sv p, count, h, le)
placed-HasPace id sv s p found h (inr room) =
    let count = running_count-put_found id p.1 s sv.sessions found in
    omega (arith, placed-count id sv p, count, room, runs-le p.1)

dropped-HasPace :
    (id : String) (sv : Service)
    → HasPace sv
    → HasPace (record sv { sessions = without id sv.sessions })
dropped-HasPace id sv h = omega (arith, h, running_count-without id sv.sessions)

with_record-HasPace :
    (now : ℕ) (id : String) (body : Service → Action SessionRecord (Unit {0}))
    → ((sv : Service) (s : SessionRecord) → MayRun sv s (body sv s).1)
    → Keeps HasPace (with_record now id body)
with_record-HasPace now id body may =
    with_record-Keeps HasPace dropped-HasPace now id body
      λ sv s found h. placed-HasPace id sv s (body sv s) found h (may sv s)

-- A new session, which does not run yet, where fewer than eight run.
opened-HasPace :
    (now : ℕ) (id : String) (s : SessionRecord) (sv : Service)
    → runs s ≡ 0
    → running_count sv.sessions < 8
    → HasPace (opened now id s sv).1
unfolding opened
opened-HasPace now id s sv idle room =
    let joined : Service = record sv { sessions = put id s sv.sessions } in
    let p = schedule now joined s in
    let count =
      running_count-put_found id p.1 s joined.sessions (lookup-put_same id s sv.sessions) in
    omega (
      arith,
      placed-count id joined p,
      count,
      running_count-put id s sv.sessions,
      idle,
      room,
      runs-le p.1,
    )

-- A new session may be scheduled only where fewer than eight run.
free_pace :
    (sv : Service) (s : SessionRecord)
    → runs s ≡ 0
    → ensure_schedulable sv s ≡ ok tt
    → running_count sv.sessions < 8
free_pace sv s idle h = elim (ensure_schedulable-runs sv s h) [
  | inl already ↦ absurd (omega (arith, idle, already))
  | inr room ↦ room
]

enter-HasPace :
    (now : ℕ) (id : String) (s : SessionRecord) (sv : Service)
    → runs s ≡ 0
    → HasPace sv
    → HasPace (enter now id s sv).1
unfolding enter
enter-HasPace now id s sv idle h = after_lift HasPace (opening_size s) _ sv h λ _ _.
    after_lift HasPace (ensure_schedulable sv s) (λ _. opened now id s) sv h
      λ _ same. opened-HasPace now id s sv idle (free_pace sv s idle same)

built-HasPace :
    (env : Surroundings) (now : ℕ) (id : String) (args : NewSession) (a : Admitted)
    → Keeps HasPace (lift (build_record env now id args a) >>= enter now id)
built-HasPace env now id args a = record {
  at = λ sv h. after_lift HasPace (build_record env now id args a) (enter now id) sv h λ s same.
      let fresh = build_record-status env now id args a s same in
      enter-HasPace now id s sv (rw fresh refl) h;
}

evicted-HasPace : (now : ℕ) (sv : Service) → HasPace sv → HasPace (evicted now sv)
unfolding evicted
evicted-HasPace now sv h = omega (arith, h, running_count-evict now sv.sessions)

create_admitted-HasPace :
    (env : Surroundings) (now : ℕ) (id : String) (args : NewSession) (a : Admitted)
    → Keeps HasPace (create_admitted env now id args a)
unfolding create_admitted
create_admitted-HasPace env now id args a =
    search (keeps_rules, evicted-HasPace, built-HasPace) depth 24

create_session-HasPace :
    (env : Surroundings) (now : ℕ) (id : String) (args : NewSession)
    → Keeps HasPace (create_session env now id args)
unfolding create_session
create_session-HasPace env now id args = search (keeps_rules, create_admitted-HasPace) depth 12

Step-HasPace : {sv sv' : Service} → Step sv sv' → HasPace sv → HasPace sv'
unfolding submit_tool_results continue_session cancel
Step-HasPace {sv} (create_step env now id args) h = (create_session-HasPace env now id args).at sv h
Step-HasPace {sv} (admitted_step {a = a} env before now id args _) h =
    (create_admitted-HasPace env now id args a).at sv h
Step-HasPace {sv} (session_step now id) h =
    (find_record-Keeps HasPace dropped-HasPace now id).at sv h
Step-HasPace {sv} (events_step now id after) h =
    (events_after-Keeps HasPace dropped-HasPace now id after).at sv h
Step-HasPace {sv} (submit_step now id results) h =
    (with_record-HasPace now id (submit_body now results)
        (λ sv s. (submit_body-MayRun now results sv s).at s (inl (omega arith)))).at
      sv h
Step-HasPace {sv} (continue_step now supported id prompt effort) h =
    (with_record-HasPace now id (continue_body now supported prompt effort) (λ sv s.
        (continue_body-MayRun now supported prompt effort sv s).at s (inl (omega arith)))).at
      sv h
Step-HasPace {sv} (cancel_step validators now ran id) h =
    (with_record-HasPace now id (cancel_body validators now ran)
        (cancel_body-MayRun validators now ran)).at
      sv h
Step-HasPace {sv} (activation_step env port now id enabled) h =
    (set_adapter_activation-sessions (λ m. running_count m ≤ 8) env port now id enabled).at sv h
Step-HasPace {sv} (select_step write id answer _) h = h
Step-HasPace {sv} (turn_step {s = s} validators adapter now id found active running) h =
    let after = advance validators now adapter s in
    let ran : runs s ≡ 1 = rw running refl in
    omega (arith, h, running_count-put_found id after s sv.sessions found, ran, runs-le after)

-- Whatever requests and turns a service has answered since its start, in any order, at most eight
-- of its sessions run at once, also where requests that create sessions overlap.
pub Reachable-running_count : (sv : Service) → Reachable sv → running_count sv.sessions ≤ 8
Reachable-running_count sv (just_started configuration port h) =
    let (state, same, _) = start_service-fresh configuration port sv h in
    subst HasPace same (omega arith)
Reachable-running_count _ (then_step {sv = before} r step) =
    Step-HasPace step (Reachable-running_count before r)
