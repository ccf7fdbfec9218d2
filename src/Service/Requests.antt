-- ===== src/Service/Requests.antt =====
-- The requests on one session: `events`, `submit_tool_results`, `continue_session`, `cancel`.
pub mod Kept
pub mod Running
use local_agent_runtime.Base.{
  ℕ, ◌+◌, String, Text, Bool, true, false, not, ◌&&◌, ◌||◌, Option, none, some, List, [], ◌∷◌, ◌++◌,
  leb, ltb, ◌==◌, if◌then◌else◌, length, all, keep, lookup, put, has_key, keys, str_eq, is_some,
  is_blank, ℤ, pos, negsuc,
}
use local_agent_runtime.Failure.{
  Failure, Result, ok, err, runtime_failure, conflict, invalid_request,
}
use local_agent_runtime.Json.{Json, str, bool, null, obj, end, field}
use local_agent_runtime.Json.Dumps.{compact_ascii, dumps_finite}
use local_agent_runtime.Contracts.{
  ReasoningEffort, effort_of_value, has_effort, ToolRequest, ToolResult, Message, plain_message,
  ModelProfile, SessionStatus, waiting_for_tool, completed, canceled,
}
use local_agent_runtime.Effect.{Action, pure, lift, gets, modify, refuse_if, ◌>>=◌, ◌>>◌}
use local_agent_runtime.Session.{
  SessionRecord, SessionEvent, bare, result_count, TaskState, task_done, is_terminal,
  max_tool_result_chars, add_event,
}
use local_agent_runtime.Session.Host.{Validators, Adapter}
use local_agent_runtime.Session.Advance.Turn.{advance}
use local_agent_runtime.Service.{
  Service, is_active, find_record, ensure_schedulable, schedule, with_record,
}

abbrev pub is_waiting : SessionStatus → Bool
is_waiting waiting_for_tool = true
is_waiting _ = false

abbrev pub is_completed : SessionStatus → Bool
is_completed completed = true
is_completed _ = false

-- `{result.request_id: result for result in results}`
supplied_from : List (String × ToolResult) → List ToolResult → List (String × ToolResult)
supplied_from found [] = found
supplied_from found (r ∷ rs) = supplied_from (put r.request_id r found) rs

unfoldable pub supplied : List ToolResult → List (String × ToolResult)
unfolding supplied_from
supplied results = supplied_from [] results

module _ {A B : Type 0} where
  -- `set(a) == set(b)` on the keys
  abbrev pub same_keys : List (String × A) → List (String × B) → Bool
  same_keys a b = all (λ k. has_key k b) (keys a) && all (λ k. has_key k a) (keys b)

abbrev pub tool_message : String → String → Text → Message
tool_message request_id name serialized = record (plain_message "tool" serialized) {
  tool_request_id = some request_id;
  tool_name = some name;
}

abbrev pub not_json : Failure
not_json = invalid_request "A tool result is not valid JSON"

abbrev pub too_long : Failure
too_long = invalid_request "A tool result exceeds its limit"

-- The message of one serialized result.
sized_message : ToolRequest → String → Result Text → Result Message
sized_message request request_id (err e) = err not_json
sized_message request request_id (ok serialized) =
    if ltb max_tool_result_chars (length serialized)
    then err too_long
    else ok (tool_message request_id request.name serialized)

unfoldable pub result_message : String → ToolRequest → ToolResult → Result Message
unfolding sized_message dumps_finite
result_message request_id request result =
    if not (str_eq result.name request.name)
    then err (invalid_request "A tool result name does not match its request")
    else sized_message request request_id (
        dumps_finite compact_ascii
          (obj (field "output" result.output (field "is_error" (bool result.is_error) end))))

-- The loop over the pending requests. That each has a result was checked before; without one,
-- `supplied[request_id]` would raise `KeyError`.
unfoldable pub result_messages :
    List (String × ToolResult) → List (String × ToolRequest) → Result (List Message)
result_messages given [] = ok []
result_messages given ((id, request) ∷ rest) = elim (lookup id given) [
  | none ↦ err (local_agent_runtime.Failure.crash "KeyError")
  | some result ↦ elim (result_message id request result) [
    | err e ↦ err e
    | ok message ↦ elim (result_messages given rest) [ err e ↦ err e | ok ms ↦ ok (message ∷ ms) ]
  ]
]

accept_results : List Message → SessionRecord → SessionRecord
accept_results messages s = record s {
  messages = s.messages ++ messages;
  pending_tools = [];
  tool_rounds = s.tool_rounds + 1;
}

pub submit_body : (now : ℕ) → List ToolResult → Service → Action SessionRecord (Unit {0})
unfolding accept_results
submit_body now results sv = do
  idle ← gets λ s. not (is_waiting s.status)
  refuse_if idle (conflict "The session is not waiting for tool results")
  unmatched ← gets λ s.
      not (length (supplied results) == length results)
      || not (same_keys (supplied results) s.pending_tools)
  refuse_if unmatched (invalid_request "Tool results must match every pending request exactly")
  built ← gets λ s. result_messages (supplied results) s.pending_tools
  messages ← lift built
  room ← gets (ensure_schedulable sv)
  lift room
  modify (accept_results messages)
  add_event now "tool_results_received" (result_count (length results))
  schedule now sv

-- `submit_tool_results`
unfoldable pub submit_tool_results :
    (now : ℕ) → String → List ToolResult → Action Service SessionRecord
unfolding submit_body
submit_tool_results now id results = with_record now id (submit_body now results)

abbrev pub effort_unknown : Failure
effort_unknown = invalid_request "The reasoning effort is unknown"

abbrev pub effort_unsupported : Failure
effort_unsupported =
    runtime_failure "reasoning_effort_unsupported"
      "The selected profile does not support the requested reasoning effort" 400

-- An effort of the vocabulary is delivered only if the route supports it.
supported_effort : List ReasoningEffort → Option ReasoningEffort → Result (Option ReasoningEffort)
supported_effort supported none = err effort_unknown
supported_effort supported (some effort) =
    if has_effort effort supported then ok (some effort) else err effort_unsupported

default_effort : List ReasoningEffort → Option ReasoningEffort → Option ReasoningEffort
default_effort supported none = none
default_effort supported (some effort) = if has_effort effort supported then some effort else none

-- `_reasoning_effort`, on the efforts that the profile's adapter supports.
unfoldable pub requested_effort :
    List ReasoningEffort → ModelProfile → Json → Result (Option ReasoningEffort)
unfolding supported_effort default_effort effort_of_value
requested_effort supported profile null =
    ok (default_effort supported profile.default_reasoning_effort)
requested_effort supported profile (str value) = supported_effort supported (effort_of_value value)
requested_effort supported profile _ = err (invalid_request "The reasoning effort is invalid")

-- `not isinstance(prompt, str) or not prompt.strip()`, then the length
unfoldable pub follow_up_text : (max_input_chars : ℕ) → Json → Result Text
follow_up_text max_input_chars (str prompt) =
    if is_blank prompt
    then err (invalid_request "The follow-up prompt is invalid")
    else if ltb max_input_chars (length prompt)
    then err (invalid_request "The session input exceeds its limit")
    else ok prompt
follow_up_text max_input_chars _ = err (invalid_request "The follow-up prompt is invalid")

-- The effort of a follow-up turn: the one in use, unless another is asked for.
next_effort : List ReasoningEffort → Json → SessionRecord → Result (Option ReasoningEffort)
next_effort supported null s = ok s.requested_reasoning_effort
next_effort supported value s = requested_effort supported s.profile value

accept_prompt : Text → Option ReasoningEffort → SessionRecord → SessionRecord
accept_prompt prompt effort s = record s {
  final_text = none;
  failure = none;
  effective_model = none;
  effective_upstream = none;
  requested_reasoning_effort = effort;
  effective_reasoning_effort = none;
  validation = "pending";
  messages = s.messages ++ plain_message "user" prompt ∷ [];
}

pub continue_body :
    (now : ℕ)
    → (supported : List ReasoningEffort) → (prompt reasoning_effort : Json) → Service
    → Action SessionRecord (Unit {0})
unfolding accept_prompt next_effort
continue_body now supported prompt reasoning_effort sv = do
  busy ← gets λ s. not (is_completed s.status)
  refuse_if busy (conflict "Only a completed session can receive follow-up input")
  given ← gets λ s. follow_up_text s.profile.limits.max_input_chars prompt
  words ← lift given
  chosen ← gets (next_effort supported reasoning_effort)
  effort ← lift chosen
  room ← gets (ensure_schedulable sv)
  lift room
  modify (accept_prompt words effort)
  add_event now "user_input_received" bare
  schedule now sv

-- `continue_session`; `supported` are the efforts of the adapter of the session's profile.
unfoldable pub continue_session :
    (now : ℕ)
    → (supported : List ReasoningEffort) → String
    → (prompt reasoning_effort : Json) → Action Service SessionRecord
unfolding continue_body
continue_session now supported id prompt reasoning_effort =
    with_record now id (continue_body now supported prompt reasoning_effort)

-- The task that `cancel` waits for: cancelled before its first step, or run to an end by the
-- adapter.
unfoldable pub join_task : Validators → (now : ℕ) → Option Adapter → SessionRecord → SessionRecord
unfolding advance
join_task v now none s = record s { task = task_done }
join_task v now (some adapter) s = advance v now adapter s

-- `cancel` on a session that has not ended.
pub mark_canceled : (now : ℕ) → Action SessionRecord (Unit {0})
mark_canceled now = do
  modify λ s. record s { status = canceled; pending_tools = []; validation = "not_validated" }
  add_event now "session_canceled" bare

pub cancel_open : Validators → (now : ℕ) → Option Adapter → Action SessionRecord (Unit {0})
unfolding join_task mark_canceled
cancel_open v now ran s =
    let joined = if is_active s.task then join_task v now ran s else s in
    if is_terminal joined.status then (ok tt, joined) else mark_canceled now joined

pub cancel_body :
    Validators → (now : ℕ) → Option Adapter → Service → Action SessionRecord (Unit {0})
unfolding cancel_open
cancel_body v now ran sv s = if is_terminal s.status then (ok tt, s) else cancel_open v now ran s

-- `cancel`
unfoldable pub cancel :
    Validators → (now : ℕ) → Option Adapter → String → Action Service SessionRecord
unfolding cancel_body
cancel v now ran id = with_record now id (cancel_body v now ran)

-- `events`; a cursor that is no `int` is `none`.
cursor : Option ℤ → Result ℕ
cursor (some (pos n)) = ok n
cursor _ = err (invalid_request "The event cursor is invalid")

later_events : ℕ → SessionRecord → Result (List SessionEvent)
later_events after s =
    if ltb (length s.events) after
    then err (invalid_request "The event cursor is ahead of the session")
    else ok (keep (λ (e : SessionEvent). ltb after e.sequence) s.events)

unfoldable pub events_after : (now : ℕ) → String → Option ℤ → Action Service (List SessionEvent)
unfolding cursor later_events find_record
events_after now id after = do
  n ← lift (cursor after)
  s ← find_record now id
  lift (later_events n s)
