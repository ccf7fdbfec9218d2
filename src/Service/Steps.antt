-- ===== src/Service/Steps.antt =====
-- The service as a whole: the steps that its requests and its tasks take, and the services that
-- they lead to.
mod Lookups
pub mod Logged
pub mod Enabled
pub mod Capacity
pub mod Running
use local_agent_runtime.Base.{ℕ, String, ◌≡◌, Bool, true, Option, some, List, lookup, put, ℤ}
use local_agent_runtime.Failure.{Result, ok}
use local_agent_runtime.Json.{Json}
use local_agent_runtime.Contracts.{ReasoningEffort, ToolResult, RuntimeConfiguration}
use local_agent_runtime.Session.{SessionRecord}
use local_agent_runtime.Session.Host.{Adapter, Validators}
use local_agent_runtime.Session.Advance.Turn.{advance}
use local_agent_runtime.Service.{Service, is_running, is_active, find_record}
use local_agent_runtime.Service.Create.{Surroundings, NewSession, Admitted, admit}
use local_agent_runtime.Service.Opening.{create_session, create_admitted}
use local_agent_runtime.Service.Requests.{
  submit_tool_results, continue_session, cancel, events_after,
}
use local_agent_runtime.Service.Activation.{
  Activation, start_service, set_adapter_activation, select_profile,
}

-- One request, or one turn of a session whose task runs. What is not the service's own is given
-- with each step, so a provider, a probe, a catalog or a selection may answer otherwise in each.
-- While a turn waits for its provider, a request on the same session changes nothing, but for
-- `cancel`, which ends the turn itself.
pub data Step : Service → Service → Type 0 where
  create_step :
      {sv : Service} (env : Surroundings) (now : ℕ) (id : String) (args : NewSession)
      → Step sv (create_session env now id args sv).1
  -- The end of a request that was admitted by an earlier service.
  admitted_step :
      {sv : Service} {a : Admitted} (env : Surroundings) (before : Service) (now : ℕ) (id : String)
      (args : NewSession)
      → admit env before args ≡ ok a
      → Step sv (create_admitted env now id args a sv).1
  session_step : {sv : Service} (now : ℕ) (id : String) → Step sv (find_record now id sv).1
  events_step :
      {sv : Service} (now : ℕ) (id : String) (after : Option ℤ)
      → Step sv (events_after now id after sv).1
  submit_step :
      {sv : Service} (now : ℕ) (id : String) (results : List ToolResult)
      → Step sv (submit_tool_results now id results sv).1
  continue_step :
      {sv : Service} (now : ℕ) (supported : List ReasoningEffort) (id : String)
      (prompt effort : Json)
      → Step sv (continue_session now supported id prompt effort sv).1
  cancel_step :
      {sv : Service} (validators : Validators) (now : ℕ) (ran : Option Adapter) (id : String)
      → Step sv (cancel validators now ran id sv).1
  activation_step :
      {sv : Service} (env : Surroundings) (port : Option Activation) (now : ℕ) (id : Option String)
      (enabled : Option Bool)
      → Step sv (set_adapter_activation env port now id enabled sv).1
  -- The selection is kept by its port; the service itself stays as it is.
  select_step :
      {sv : Service} (write : String → Result (Unit {0})) (id : Option String)
      (answer : Result (Unit {0}))
      → select_profile write sv id ≡ answer
      → Step sv sv
  turn_step :
      {sv : Service} {s : SessionRecord} (validators : Validators) (adapter : Adapter) (now : ℕ)
      (id : String)
      → lookup id sv.sessions ≡ some s
      → is_active s.task ≡ true
      → is_running s.status ≡ true
      → Step sv (record sv { sessions = put id (advance validators now adapter s) sv.sessions })

-- The services that steps lead to from one that has just started.
pub data Reachable : Service → Type 0 where
  just_started :
      {sv : Service} (configuration : RuntimeConfiguration) (port : Option Activation)
      → start_service configuration port ≡ ok sv
      → Reachable sv
  then_step : {sv sv' : Service} → Reachable sv → Step sv sv' → Reachable sv'
