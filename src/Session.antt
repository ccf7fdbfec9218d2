-- ===== src/Session.antt =====
-- The state of one session: `SessionRecord` of service.py and its event log.
pub mod Events
pub mod Emitter
pub mod Host
pub mod Identifiers
pub mod Public
mod Tests
pub mod Advance
use local_agent_runtime.Base.{
  ℕ, ◌+◌, ◌-◌, String, Text, Bool, true, false, Option, none, some, List, [], ◌∷◌, ◌++◌, leb,
  if◌then◌else◌, length, is_some, member,
}
use local_agent_runtime.Failure.{Failure, Result, ok, err, runtime_failure}
use local_agent_runtime.Json.{Fields}
use local_agent_runtime.Contracts.{
  ReasoningEffort, SessionStatus, created, running, waiting_for_tool, completed, failed, canceled,
  ProviderConnection, ModelProfile, ToolDefinition, ToolRequest, Message, Usage,
}
use local_agent_runtime.Context.Plan.{ContextPlan, ObservedPrompt}
use local_agent_runtime.Effect.{Action}

-- The payloads that the runtime attaches to its events, one constructor for each shape.
pub data Payload : Type 0 where
  bare : Payload
  session_source : (profile_id : String) (task_code : Option String) → Payload
  text_delta : (round : ℕ) (delta : Text) → Payload
  reduction : (round : ℕ) (plan : ContextPlan) → Payload
  requests : List ToolRequest → Payload
  completion :
      (final_text : Text) (effective_model effective_upstream : Option String)
      (effort : Option ReasoningEffort) (usage : Usage)
      → Payload
  failure_report : (code message : String) → Payload
  result_count : ℕ → Payload

pub record SessionEvent : Type 0 where
  pub sequence : ℕ
  pub type : String
  pub occurred_at : ℕ
  pub payload : Payload

-- `asyncio.Task | None`: no task, one that is not done, one that is.
pub data TaskState : Type 0 where
  no_task task_active task_done : TaskState

pub record SessionRecord : Type 0 where
  pub id : String
  pub profile : ModelProfile
  pub connection : ProviderConnection
  pub tools : List ToolDefinition
  pub messages : List Message
  pub private_processing : Bool
  pub model_option_id : Option String
  pub task_code : Option String
  pub output_schema : Option Fields
  pub created_at : ℕ
  pub updated_at : ℕ
  pub finished_at : Option ℕ
  pub output_chars : ℕ
  pub status : SessionStatus
  pub events : List SessionEvent
  pub pending_tools : List (String × ToolRequest)
  pub tool_rounds : ℕ
  pub provider_calls : ℕ
  pub final_text : Option Text
  pub failure : Option (String × String)
  pub effective_model : Option String
  pub effective_upstream : Option String
  pub requested_reasoning_effort : Option ReasoningEffort
  pub effective_reasoning_effort : Option ReasoningEffort
  pub usage : Usage
  pub validation : String
  pub context : Option ContextPlan
  pub observed_prompt : Option ObservedPrompt
  pub task : TaskState

abbrev pub max_tools : ℕ
max_tools = 128

abbrev pub max_events : ℕ
max_events = 512

abbrev pub max_tool_result_chars : ℕ
max_tool_result_chars = 100000

abbrev pub stream_event_chars : ℕ
stream_event_chars = 128

abbrev pub stream_event_budget : ℕ
stream_event_budget = 256

-- `TERMINAL_EVENT_TYPES`
abbrev pub terminal_event_types : List String
terminal_event_types = "session_completed" ∷ "session_failed" ∷ "session_canceled" ∷ []

abbrev pub is_terminal : SessionStatus → Bool
is_terminal completed = true
is_terminal failed = true
is_terminal canceled = true
is_terminal _ = false

abbrev pub event_limit_exceeded : Failure
event_limit_exceeded =
    runtime_failure "event_limit_exceeded" "The session event limit was reached" 400

-- The dates that an event sets.
unfoldable pub touch : ℕ → SessionRecord → SessionRecord
touch now s = record s {
  updated_at = now;
  finished_at = if is_terminal s.status then some now else s.finished_at;
}

abbrev pub event_limit : String → ℕ
event_limit event_type =
    if member event_type terminal_event_types then max_events else max_events - 1

abbrev pub event_at : (now : ℕ) → String → Payload → List SessionEvent → SessionEvent
event_at now event_type payload events = record {
  sequence = length events + 1;
  type = event_type;
  occurred_at = now;
  payload = payload;
}

-- `SessionRecord.add_event`
unfoldable pub add_event : (now : ℕ) → String → Payload → Action SessionRecord (Unit {0})
unfolding touch
add_event now event_type payload s =
    if leb (event_limit event_type) (length s.events)
    then (err event_limit_exceeded, touch now s)
    else (
      ok tt,
      record (touch now s) { events = s.events ++ event_at now event_type payload s.events ∷ [] },
    )
