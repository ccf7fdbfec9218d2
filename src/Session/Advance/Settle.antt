-- ===== src/Session/Advance/Settle.antt =====
-- `RuntimeService._advance` from the provider's answer on: what is recorded of it, the limits it
-- is held to, its tool requests or its final text.
pub mod Requests
use local_agent_runtime.Base.{
  ℕ, ◌+◌, ◌*◌, ◌/◌, ◌%◌, String, Text, Bool, true, false, not, ◌&&◌, ◌||◌, Option, none, some, List,
  [], ◌∷◌, ◌++◌, map, leb, ltb, ◌==◌, if◌then◌else◌, is_some, is_empty, or_else, length, codes,
  str_eq, lookup, put, has_key, values, ℤ, pos, ◌+ℤ◌,
}
use local_agent_runtime.Failure.{Failure, Result, ok, err, runtime_failure, crash}
use local_agent_runtime.Json.{Json, arr, obj, Fields, items}
use local_agent_runtime.Json.Dumps.{default_style, dumps_finite}
use local_agent_runtime.Contracts.{
  CompletionResult, ToolRequest, ToolDefinition, Message, plain_message, Usage, waiting_for_tool,
  completed,
}
use local_agent_runtime.Contracts.Public.{tool_request_json}
use local_agent_runtime.Context.Plan.{ContextPlan, ObservedPrompt}
use local_agent_runtime.Effect.{Action, lift, modify, resume, ◌>>=◌, ◌>>◌}
use local_agent_runtime.Session.{SessionRecord, requests, completion, add_event}
use local_agent_runtime.Session.Host.{Validators, Verdict, valid, violation, broken}
use local_agent_runtime.Session.Identifiers.{is_request_id}
use local_agent_runtime.Session.Emitter.{output_limit_exceeded}

-- `for name, count in usage.items(): record.usage[name] = record.usage.get(name, 0) + count`
add_usage : Usage → Usage → Usage
add_usage [] total = total
add_usage ((name, count) ∷ counts) total =
    add_usage counts (put name (or_else (lookup name total) (pos 0) +ℤ count) total)

abbrev whole_unit : ℕ
whole_unit = 1000000000

-- A usage count that is an integer and not negative.
whole_count : Option ℤ → Option ℕ
whole_count (some (pos n)) = if n % whole_unit == 0 then some (n / whole_unit) else none
whole_count _ = none

reported : Usage → Option ℤ
reported usage = elim (lookup "prompt_tokens" usage) [
  | none ↦ lookup "input_tokens" usage
  | some n ↦ some n
]

-- The provider's own count of a prompt, if it is plausible, replaces the last one.
calibrated : ContextPlan → Option ℕ → Option ObservedPrompt → Option ObservedPrompt
calibrated plan none last = last
calibrated plan (some n) last =
    if leb (length plan.messages) n && leb n 999999999
    then some (record { indices = plan.indices; prompt_tokens = n })
    else last

pub note_answer : ContextPlan → CompletionResult → SessionRecord → SessionRecord
unfolding add_usage whole_count reported calibrated
note_answer plan result s = record s {
  effective_model = result.effective_model;
  effective_upstream = result.effective_upstream;
  effective_reasoning_effort = result.effective_reasoning_effort;
  usage = add_usage result.usage s.usage;
  observed_prompt = calibrated plan (whole_count (reported result.usage)) s.observed_prompt;
}

-- `len(result.text) + len(json.dumps([…], allow_nan=False))`
unfoldable pub output_size : CompletionResult → Result ℕ
unfolding dumps_finite tool_request_json
output_size result =
    elim (dumps_finite default_style (arr (items (map tool_request_json result.tool_requests)))) [
      | ok shown ↦ ok (length result.text + length shown)
      | err e ↦ err e
    ]

pub charge : ℕ → Action SessionRecord (Unit {0})
charge size s =
    if ltb s.profile.limits.max_output_chars (s.output_chars + size)
    then (err output_limit_exceeded, s)
    else (ok tt, record s { output_chars = s.output_chars + size })

-- The output is held to the session's limit and added to its count.
unfoldable pub charge_output : CompletionResult → Action SessionRecord (Unit {0})
unfolding charge
charge_output result = do size ← lift (output_size result); charge size

find_tool : String → List ToolDefinition → Option ToolDefinition
find_tool name [] = none
find_tool name (tool ∷ tools) =
    let later = find_tool name tools in
    elim later [ some t ↦ some t | none ↦ if str_eq tool.name name then some tool else none ]

abbrev pub duplicate_request : Failure
duplicate_request =
    runtime_failure "invalid_tool_request" "The provider returned a duplicate tool request" 400

abbrev pub unknown_request : Failure
unknown_request =
    runtime_failure "unknown_tool_request" "The provider requested an unavailable tool" 400

abbrev pub invalid_arguments : Failure
invalid_arguments =
    runtime_failure "invalid_tool_arguments" "The provider returned invalid tool arguments" 400

abbrev mismatch : Failure
mismatch =
    runtime_failure "schema_validation_failed" "Provider output does not match the schema" 502

abbrev verdict_result : Verdict → Failure → Result (Unit {0})
verdict_result valid e = ok tt
verdict_result violation e = err e
verdict_result (broken name) e = err (crash name)

module _ (v : Validators) where
  -- The checks on one tool request, beside those accepted before it.
  unfoldable pub check_request :
      List ToolDefinition → List (String × ToolRequest) → ToolRequest → Result (Unit {0})
  unfolding find_tool
  check_request tools pending request =
      if not (is_request_id (codes request.id)) || has_key request.id pending
      then err duplicate_request
      else elim (find_tool request.name tools) [
        | none ↦ err unknown_request
        | some tool ↦
            verdict_result (v.validate (obj request.arguments) tool.input_schema) invalid_arguments
      ]

  -- The loop that collects the pending requests by their identifiers.
  unfoldable pub collect_requests :
      List ToolDefinition
      → List (String × ToolRequest)
      → List ToolRequest
      → Result (List (String × ToolRequest))
  collect_requests tools pending [] = ok pending
  collect_requests tools pending (request ∷ rest) = elim (check_request tools pending request) [
    | err e ↦ err e
    | ok _ ↦ collect_requests tools (put request.id request pending) rest
  ]

  -- The turn ends with requests that the consumer must answer.
  pub await_results :
      (now : ℕ) → CompletionResult → List (String × ToolRequest) → Action SessionRecord (Unit {0})
  await_results now result pending = do
    modify λ s. record s {
      messages =
          s.messages
          ++ record (plain_message "assistant" result.text) { tool_requests = values pending } ∷ [];
      pending_tools = pending;
      status = waiting_for_tool;
    }
    add_event now "tool_requests" (requests (values pending))

  unfoldable pub ask_tools : (now : ℕ) → CompletionResult → Action SessionRecord (Unit {0})
  unfolding await_results
  ask_tools now result s =
      if leb s.profile.limits.max_tool_rounds s.tool_rounds
      then (
        err (
            runtime_failure "tool_round_limit_exceeded" "The session exceeded its tool-round limit"
              400),
        s,
      )
      else resume (collect_requests s.tools [] result.tool_requests, s) (await_results now result)

  -- The final text against the session's schema, if it has one.
  unfoldable pub check_output : Option Fields → Text → Result (Unit {0})
  check_output none final = ok tt
  check_output (some schema) final = elim (v.loads final) [
    | none ↦ err (runtime_failure "schema_validation_failed" "Provider output is not JSON" 502)
    | some value ↦ elim (v.draft_validate value schema) [
      | valid ↦ ok tt
      | violation ↦ err mismatch
      | broken name ↦
          if str_eq name "TypeError" || str_eq name "RecursionError"
          then err mismatch
          else err (crash name)
    ]
  ]

  -- The turn ends with the session's final text.
  pub accept_final : (now : ℕ) → CompletionResult → Action SessionRecord (Unit {0})
  accept_final now result = do
    modify λ s. record s {
      messages = s.messages ++ plain_message "assistant" result.text ∷ [];
      final_text = some result.text;
      validation = "passed";
      status = completed;
    }
    add_event now "session_completed" (
        completion result.text result.effective_model result.effective_upstream
          result.effective_reasoning_effort result.usage)

  unfoldable pub complete_session : (now : ℕ) → CompletionResult → Action SessionRecord (Unit {0})
  unfolding accept_final
  complete_session now result s =
      resume (check_output s.output_schema result.text, s) (λ _. accept_final now result)

  unfoldable pub settle :
      (now : ℕ) → ContextPlan × CompletionResult → Action SessionRecord (Unit {0})
  unfolding note_answer
  settle now (plan, result) = do
    modify (note_answer plan result)
    charge_output result
    if is_empty result.tool_requests then complete_session now result else ask_tools now result
