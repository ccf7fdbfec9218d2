-- ===== src/Service/Steps/Enabled.antt =====
-- The profiles that every request may count on: the default one and those of the task routes.
use local_agent_runtime.Base.{ℕ, String, ◌≡◌, true, Bool, List, [], ◌∷◌, put, without, values, All}
use local_agent_runtime.Failure.{Result, ok, err}
use local_agent_runtime.Contracts.{RuntimeConfiguration}
use local_agent_runtime.Effect.{Action}
use local_agent_runtime.Effect.Keeps.{Keeps, keeps_rules}
use local_agent_runtime.Session.{SessionRecord}
use local_agent_runtime.Service.{Service, find_record, placed, with_record, schedule, is_enabled}
use local_agent_runtime.Service.Create.{Surroundings, NewSession, Admitted}
use local_agent_runtime.Service.Opening.{evicted, opened, enter, create_session, create_admitted}
use local_agent_runtime.Service.Requests.{
  submit_body, submit_tool_results, continue_body, continue_session, cancel_body, cancel,
  events_after,
}
use local_agent_runtime.Service.Steps.Lookups.{
  find_record-Keeps, events_after-Keeps, with_record-Keeps,
}
use local_agent_runtime.Service.Activation.Policy.{
  Policy, start_service-fresh, set_adapter_activation-Policy,
}
use local_agent_runtime.Service.Steps.{
  Step, create_step, admitted_step, session_step, events_step, submit_step, continue_step,
  cancel_step, activation_step, select_step, turn_step, Reachable, just_started, then_step,
}

-- What a request on sessions leaves alone: the configuration and the activation state.
module _ (P : RuntimeConfiguration → List (String × Bool) → Type 0) where
  abbrev Kept : Service → Type 0
  Kept sv = P sv.configuration sv.activation_state

  placed-Kept :
      (id : String) (sv : Service) (p : Result (Unit {0}) × SessionRecord)
      → Kept sv
      → Kept (placed id sv p).1
  unfolding placed
  placed-Kept id sv (ok _, s) h = h
  placed-Kept id sv (err e, s) h = h

  dropped-Kept :
      (id : String) (sv : Service)
      → Kept sv
      → Kept (record sv { sessions = without id sv.sessions })
  dropped-Kept id sv h = h

  with_record-Kept :
      (now : ℕ) (id : String) (body : Service → Action SessionRecord (Unit {0}))
      → Keeps Kept (with_record now id body)
  with_record-Kept now id body =
      with_record-Keeps Kept dropped-Kept now id body λ sv s _ h. placed-Kept id sv (body sv s) h

  opened-Kept : (now : ℕ) (id : String) (s : SessionRecord) → Keeps Kept (opened now id s)
  unfolding opened
  opened-Kept now id s = record {
    at = λ sv h.
        let joined : Service = record sv { sessions = put id s sv.sessions } in
        placed-Kept id joined (schedule now joined s) h;
  }

  enter-Kept : (now : ℕ) (id : String) (s : SessionRecord) → Keeps Kept (enter now id s)
  unfolding enter
  enter-Kept now id s = search (keeps_rules, opened-Kept) depth 24

  evicted-Kept : (now : ℕ) (sv : Service) → Kept sv → Kept (evicted now sv)
  unfolding evicted
  evicted-Kept now sv h = h

  create_admitted-Kept :
      (env : Surroundings) (now : ℕ) (id : String) (args : NewSession) (a : Admitted)
      → Keeps Kept (create_admitted env now id args a)
  unfolding create_admitted
  create_admitted-Kept env now id args a = search (keeps_rules, evicted-Kept, enter-Kept) depth 24

  create_session-Kept :
      (env : Surroundings) (now : ℕ) (id : String) (args : NewSession)
      → Keeps Kept (create_session env now id args)
  unfolding create_session
  create_session-Kept env now id args = search (keeps_rules, create_admitted-Kept) depth 12

-- `Policy` by the two fields that it depends on.
abbrev Settled : RuntimeConfiguration → List (String × Bool) → Type 0
Settled configuration state =
    Policy (record { configuration = configuration; sessions = []; activation_state = state })

Policy-Settled : (sv : Service) → Policy sv → Kept Settled sv
unfolding is_enabled
Policy-Settled sv h = h

Settled-Policy : (sv : Service) → Kept Settled sv → Policy sv
unfolding is_enabled
Settled-Policy sv h = h

by_fields :
    {A : Type 0} (m : Action Service A)
    → Keeps (Kept Settled) m
    → (sv : Service) → Policy sv
    → Policy (m sv).1
by_fields m keeps sv h = Settled-Policy (m sv).1 (keeps.at sv (Policy-Settled sv h))

Step-Policy : {sv sv' : Service} → Step sv sv' → Policy sv → Policy sv'
unfolding submit_tool_results continue_session cancel
Step-Policy {sv} (create_step env now id args) h =
    by_fields (create_session env now id args) (create_session-Kept Settled env now id args) sv h
Step-Policy {sv} (admitted_step {a = a} env before now id args _) h =
    by_fields (create_admitted env now id args a) (create_admitted-Kept Settled env now id args a)
      sv h
Step-Policy {sv} (session_step now id) h =
    by_fields (find_record now id) (find_record-Keeps (Kept Settled) (dropped-Kept Settled) now id)
      sv h
Step-Policy {sv} (events_step now id after) h =
    by_fields (events_after now id after)
      (events_after-Keeps (Kept Settled) (dropped-Kept Settled) now id after) sv h
Step-Policy {sv} (submit_step now id results) h =
    by_fields _ (with_record-Kept Settled now id (submit_body now results)) sv h
Step-Policy {sv} (continue_step now supported id prompt effort) h =
    by_fields _ (with_record-Kept Settled now id (continue_body now supported prompt effort)) sv h
Step-Policy {sv} (cancel_step validators now ran id) h =
    by_fields _ (with_record-Kept Settled now id (cancel_body validators now ran)) sv h
Step-Policy {sv} (activation_step env port now id enabled) h =
    set_adapter_activation-Policy env port now id enabled sv h
Step-Policy {sv} (select_step write id answer _) h = h
Step-Policy {sv} (turn_step validators adapter now id found active runs) h =
    Settled-Policy _ (Policy-Settled sv h)

Reachable-Policy : (sv : Service) → Reachable sv → Policy sv
Reachable-Policy sv (just_started configuration port h) =
    let (state, _, held) = start_service-fresh configuration port sv h in held
Reachable-Policy _ (then_step {sv = before} r step) = Step-Policy step (Reachable-Policy before r)

-- From its start on, whatever requests and turns a service has answered, in any order, its
-- default profile and the profile of every task route are enabled: a stored activation state that
-- disables one keeps the service from starting, and no request disables one later.
pub Reachable-is_enabled :
    (sv : Service)
    → Reachable sv
    → All
        (λ id. is_enabled sv id ≡ true)
        (sv.configuration.default_profile ∷ values sv.configuration.task_routes)
Reachable-is_enabled sv r = Reachable-Policy sv r
