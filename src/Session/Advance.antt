-- ===== src/Session/Advance.antt =====
-- `RuntimeService._advance` up to the provider's answer: the context window, the plan, the
-- invocation and the call. One turn reads the clock once, as `now`.
pub mod Room
pub mod Settle
pub mod Turn
pub mod Planned
use local_agent_runtime.Base.{
  ℕ, ◌+◌, String, Text, Bool, true, false, not, ◌&&◌, ◌||◌, Option, none, some, List, [], ◌∷◌, leb,
  ltb, ◌==◌, if◌then◌else◌, is_some, str_eq, length, same_text,
}
use local_agent_runtime.Failure.{Failure, Result, ok, err, runtime_failure, timed_out, cancelled}
use local_agent_runtime.Json.{Fields}
use local_agent_runtime.Contracts.{
  ContextWindow, unknown_window, CompletionResult, Invocation, Message,
}
use local_agent_runtime.Context.Plan.{
  Request, ContextPlan, ObservedPrompt, is_reduced, is_output_reduced, plan_context, checked_plan,
}
use local_agent_runtime.Effect.{Action, pure, raise, lift, gets, modify, ◌>>=◌, ◌>>◌}
use local_agent_runtime.Session.{SessionRecord, reduction, add_event}
use local_agent_runtime.Session.Host.{
  Probe, answered, probe_failed, probe_cancelled, out_of_time, Adapter,
}
use local_agent_runtime.Session.Emitter.{TextDeltaEmitter, new_emitter, flush}
use local_agent_runtime.Session.Emitter.Stream.{push_all}

-- A positive count that the provider itself reports, or nothing.
positive_tokens : Option ℕ → ContextWindow → ContextWindow
positive_tokens none window = unknown_window
positive_tokens (some tokens) window =
    if tokens == 0 || not (str_eq window.source "provider_loaded") then unknown_window else window

evidence : Option ContextWindow → ContextWindow
unfolding positive_tokens
evidence none = unknown_window
evidence (some window) = positive_tokens window.tokens window

-- `_context_window`
unfoldable pub context_window_of : Adapter → Result ContextWindow
unfolding evidence
context_window_of adapter = elim adapter.context_window [
  | none ↦ ok unknown_window
  | some probe ↦ elim probe [
    | answered window ↦ ok (evidence window)
    | probe_failed ↦ ok unknown_window
    | probe_cancelled ↦ err cancelled
    | out_of_time ↦ err timed_out
  ]
]

abbrev invalid_size : Failure
invalid_size =
    runtime_failure "invalid_provider_contract" "The provider reported an invalid prompt size" 502

unfoldable pub checked_size : Result (Option ℕ) → Result ℕ
checked_size (ok (some size)) = ok size
checked_size (ok none) = err invalid_size
checked_size (err e) = err e

-- `_prompt_measure`
unfoldable pub prompt_measure : SessionRecord → Adapter → Option (List Message → Result ℕ)
unfolding checked_size
prompt_measure s adapter = elim adapter.prompt_chars [
  | none ↦ none
  | some sizing ↦ some λ messages. checked_size (
      sizing (record {
        messages = messages;
        tools = s.tools;
        limits = s.profile.limits;
        output_schema = s.output_schema;
        reasoning_effort = s.requested_reasoning_effort;
        provider_native_web = true;
      }))
]

-- The arguments with which a session asks for its plan.
abbrev pub plan_request : SessionRecord → Adapter → ContextWindow → Request
plan_request s adapter window = record {
  messages = s.messages;
  tools = s.tools;
  output_schema = s.output_schema;
  limits = s.profile.limits;
  window = window;
  observed = s.observed_prompt;
  measure = prompt_measure s adapter;
}

-- `_plan_context`
unfoldable pub plan_session : (now : ℕ) → Adapter → ContextWindow → Action SessionRecord ContextPlan
plan_session now adapter window = do
  made ← gets (λ s. plan_context (plan_request s adapter window))
  plan ← lift made
  modify (λ s. record s { context = some plan })
  lift (checked_plan plan)
  if is_reduced plan || is_output_reduced plan
      then (do
        round ← gets (λ s. s.provider_calls)
        add_event now "context_reduced" (reduction round plan))
      else pure tt
  pure plan

abbrev pub invocation_of : SessionRecord → ContextPlan → Invocation
invocation_of s plan = record {
  messages = plan.messages;
  tools = s.tools;
  limits = record s.profile.limits { max_output_tokens = plan.allocated_output_tokens };
  output_schema = s.output_schema;
  reasoning_effort = s.requested_reasoning_effort;
  provider_native_web = true;
}

-- How a streaming call ends: by a refused fragment, or else as the provider ends it.
call_end : Result (Unit {0}) → Result CompletionResult → Result CompletionResult
call_end (err e) outcome = err e
call_end (ok _) outcome = outcome

-- The last flush, whose failure takes the place of the call's; then the texts are compared.
compared : Result (Unit {0}) → Result CompletionResult → Text → Result CompletionResult
compared (err e) outcome streamed = err e
compared (ok _) (err e) streamed = err e
compared (ok _) (ok result) streamed =
    if same_text result.text streamed
    then ok result
    else err (
        runtime_failure "invalid_provider_response"
          "The provider's streamed and completed text differ" 502)

pub stream_from :
    (now : ℕ)
    → List (Option Text) × Result CompletionResult
    → TextDeltaEmitter
    → Result CompletionResult × SessionRecord
unfolding call_end compared
stream_from now (deltas, outcome) emitter =
    let (pushed, e) = push_all now deltas emitter in
    let (last, e') = flush now e in (compared last (call_end pushed outcome) e'.text, e'.session)

pub stream_call :
    (now : ℕ)
    → Option (Invocation → List (Option Text) × Result CompletionResult)
    → Invocation
    → Action SessionRecord CompletionResult
unfolding stream_from
stream_call now none invocation s = (
  err (
      runtime_failure "invalid_provider_contract"
        "The provider advertises streaming without implementing it" 502),
  s,
)
stream_call now (some streaming) invocation s = elim (new_emitter s) [
  | err e ↦ (err e, s)
  | ok emitter ↦ stream_from now (streaming invocation) emitter
]

-- The provider's call, streamed unless a schema is set or the adapter does not stream.
unfoldable pub provider_call :
    (now : ℕ) → Adapter → Invocation → Action SessionRecord CompletionResult
unfolding stream_call
provider_call now adapter invocation s =
    if not (is_some s.output_schema) && adapter.token_streaming
    then stream_call now adapter.complete_streaming invocation s
    else (adapter.complete invocation, s)

-- The timed part of `_advance`.
unfoldable pub call_provider :
    (now : ℕ) → Adapter → Action SessionRecord (ContextPlan × CompletionResult)
unfolding context_window_of plan_session provider_call
call_provider now adapter = do
  window ← lift (context_window_of adapter)
  plan ← plan_session now adapter window
  invocation ← gets (λ s. invocation_of s plan)
  result ← provider_call now adapter invocation
  pure (plan, result)
