-- ===== src/Service/Create/Admission.antt =====
-- The record that `create_session` builds has its log in order and does not run yet.
use mathlib.Core.Path.{subst}
use local_agent_runtime.Base.{
  ℕ, String, ◌≡◌, refl, Option, List, arith, sym, ap, Bool-cases, inl, inr, leb, length,
}
use local_agent_runtime.Failure.{Result, ok, err, >>=-eq-ok, ok-injective}
use local_agent_runtime.Json.{Fields}
use local_agent_runtime.Contracts.{ReasoningEffort, ToolDefinition, created}
use local_agent_runtime.Session.{
  SessionRecord, session_source, add_event, touch, event_limit, Payload,
}
use local_agent_runtime.Session.Events.{HasRoom, add_event-HasRoom}
use local_agent_runtime.Service.Requests.{requested_effort}
use local_agent_runtime.Service.Create.{
  NewSession, Surroundings, Admitted, tool_catalog, optional_schema, new_record, recorded,
  build_record,
}

new_record-HasRoom :
    (now : ℕ) (id : String) (args : NewSession) (a : Admitted) (tools : List ToolDefinition)
    (schema : Option Fields) (effort : Option ReasoningEffort)
    → HasRoom (new_record now id args a tools schema effort)
unfolding new_record
new_record-HasRoom now id args a tools schema effort = record {
  numbered = refl;
  room = omega arith;
  output_bounded = omega arith;
}

recorded-HasRoom :
    (p : Result (Unit {0}) × SessionRecord) (s : SessionRecord)
    → HasRoom p.1
    → recorded p ≡ ok s
    → HasRoom s
unfolding recorded
recorded-HasRoom (ok _, t) s h e = subst HasRoom (ok-injective e) h
recorded-HasRoom (err e, t) s h q = cc

-- A record that is built is a new one with its first event.
build_record-recorded :
    (env : Surroundings) (now : ℕ) (id : String) (args : NewSession) (a : Admitted)
    (s : SessionRecord)
    → build_record env now id args a ≡ ok s
    → (tools : List ToolDefinition) × (schema : Option Fields) × (effort : Option ReasoningEffort)
      × (recorded (
            add_event now "session_created"
              (session_source a.profile.id args.task_code)
              (new_record now id args a tools schema effort))
          ≡ ok s)
unfolding build_record
build_record-recorded env now id args a s h =
    let (tools, _, h₁) = >>=-eq-ok (tool_catalog env.validators args.tools) _ h in
    let (schema, _, h₂) = >>=-eq-ok (optional_schema env.validators args.output_schema) _ h₁ in
    let (effort, _, h₃) =
      >>=-eq-ok
        (requested_effort (env.factory a.connection a.profile).reasoning_efforts a.profile
          args.reasoning_effort)
        (λ effort. recorded (
          add_event now "session_created" (session_source a.profile.id args.task_code)
            (new_record now id args a tools schema effort)))
        h₂ in
    (tools, schema, effort, h₃)

pub build_record-HasRoom :
    (env : Surroundings) (now : ℕ) (id : String) (args : NewSession) (a : Admitted)
    (s : SessionRecord)
    → build_record env now id args a ≡ ok s
    → HasRoom s
build_record-HasRoom env now id args a s h =
    let (tools, schema, effort, made) = build_record-recorded env now id args a s h in
    recorded-HasRoom
      (add_event now "session_created" (session_source a.profile.id args.task_code)
        (new_record now id args a tools schema effort))
      s
      ((add_event-HasRoom now "session_created" (session_source a.profile.id args.task_code)
          refl).at
        (new_record now id args a tools schema effort)
        (new_record-HasRoom now id args a tools schema effort))
      made

recorded-status :
    (now : ℕ) (event_type : String) (payload : Payload) (t s : SessionRecord)
    → recorded (add_event now event_type payload t) ≡ ok s
    → s.status ≡ t.status
unfolding recorded add_event touch
recorded-status now event_type payload t s h =
    elim (Bool-cases (leb (event_limit event_type) (length t.events))) [
      | inl full ↦ cc (rw full at h)
      | inr room ↦ sym (ap (λ (r : SessionRecord). r.status) (ok-injective (rw room at h)))
    ]

-- A new session does not run yet.
pub build_record-status :
    (env : Surroundings) (now : ℕ) (id : String) (args : NewSession) (a : Admitted)
    (s : SessionRecord)
    → build_record env now id args a ≡ ok s
    → s.status ≡ created
unfolding new_record
build_record-status env now id args a s h =
    let (tools, schema, effort, made) = build_record-recorded env now id args a s h in
    recorded-status now "session_created" (session_source a.profile.id args.task_code)
      (new_record now id args a tools schema effort) s made
