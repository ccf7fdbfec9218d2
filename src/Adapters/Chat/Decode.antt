-- ===== src/Adapters/Chat/Decode.antt =====
-- `decode_chat`: a completion out of a provider's response. `loads` is `json.loads`, without a
-- value where it raises; `number` is the value of a number's text.
pub mod Checked
use local_agent_runtime.Base.{
  ℕ, String, Text, string_of, Bool, true, false, not, ◌&&◌, ◌||◌, Option, none, some, List, [], ◌∷◌,
  ltb, ◌==◌, if◌then◌else◌, length, is_empty, is_some, is_blank, ℤ,
}
use local_agent_runtime.Failure.{Failure, Result, ok, err, runtime_failure, ◌>>=◌, ◌>>◌, raise_if}
use local_agent_runtime.Json.{Json, null, arr, obj, Fields}
use local_agent_runtime.Json.Read.{
  get, get_or_null, text_of, fields_of, list_of, is_truthy, equals_text, need,
}
use local_agent_runtime.Contracts.{Invocation, ToolRequest, CompletionResult}
use local_agent_runtime.Adapters.Transport.{safe_usage, response_identity}

abbrev pub invalid_output : Failure
invalid_output =
    runtime_failure "invalid_provider_response" "The provider returned invalid output" 502

abbrev pub incomplete_output : Failure
incomplete_output =
    runtime_failure "provider_incomplete" "Provider output was refused or incomplete" 502

abbrev pub refused_output : Failure
refused_output = runtime_failure "provider_refused" "The provider refused the request" 502

-- A list or a mapping cannot be looked up in a set.
check_finish : Json → Result (Unit {0})
check_finish (arr xs) = err invalid_output
check_finish (obj fs) = err invalid_output
check_finish finish =
    raise_if (not (equals_text finish "stop" || equals_text finish "tool_calls")) incomplete_output

-- `choices[0]`, whose methods are a mapping's
abbrev pub first_fields : List Json → Option Fields
first_fields [] = none
first_fields (choice ∷ rest) = fields_of choice

-- the one choice's message
unfoldable pub chosen_message : Fields → Result Fields
unfolding check_finish
chosen_message payload = do
  choices ← need invalid_output (list_of (get_or_null "choices" payload))
  raise_if (not (length choices == 1)) invalid_output
  choice ← need invalid_output (first_fields choices)
  check_finish (get_or_null "finish_reason" choice)
  message ← need invalid_output (fields_of (get_or_null "message" choice))
  raise_if (is_truthy (get_or_null "refusal" message)) refused_output
  ok message

-- `message.get("content") or ""`, within the limit
unfoldable pub message_content : (max_output_chars : ℕ) → Json → Result Text
message_content max_output_chars content =
    if is_truthy content
    then (do
      text ← need invalid_output (text_of content)
      raise_if (ltb max_output_chars (length text)) invalid_output
      ok text)
    else ok []

-- `message.get("tool_calls", [])`
unfoldable pub calls_of : Option Json → Option (List Json)
calls_of none = some []
calls_of (some calls) = list_of calls

module _ (loads : Text → Option Json) (number : Text → Option ℤ) where
  -- one iteration of the loop over the calls
  unfoldable pub decode_call : Json → Result ToolRequest
  decode_call value = do
    call ← need invalid_output (fields_of value)
    raise_if (not (equals_text (get_or_null "type" call) "function")) invalid_output
    function ← need invalid_output (fields_of (get_or_null "function" call))
    shown ← need invalid_output (text_of (get_or_null "arguments" function))
    loaded ← need invalid_output (loads shown)
    arguments ← need invalid_output (fields_of loaded)
    id ← need invalid_output (text_of (get_or_null "id" call))
    raise_if (is_empty id || ltb 128 (length id)) invalid_output
    name ← need invalid_output (text_of (get_or_null "name" function))
    ok (record { id = string_of id; name = string_of name; arguments = arguments })

  unfoldable pub decode_calls : List Json → Result (List ToolRequest)
  unfolding decode_call
  decode_calls [] = ok []
  decode_calls (call ∷ calls) = do ok ((← decode_call call) ∷ (← decode_calls calls))

  unfoldable pub message_calls : Fields → Result (List ToolRequest)
  unfolding calls_of decode_calls
  message_calls message = do
    calls ← need invalid_output (calls_of (get "tool_calls" message))
    raise_if (ltb 128 (length calls)) invalid_output
    decode_calls calls

  abbrev pub reasoning_channel_keys : List String
  reasoning_channel_keys = "reasoning_content" ∷ "reasoning" ∷ []

  -- The first candidate, a text that is not blank, if one stands under the names.
  unfoldable pub reasoning_candidate : Fields → List String → Option Text
  reasoning_candidate message [] = none
  reasoning_candidate message (key ∷ rest) =
      let later = reasoning_candidate message rest in
      elim (text_of (get_or_null key message)) [
        | none ↦ later
        | some candidate ↦ if is_blank candidate then later else some candidate
      ]

  -- `_reasoning_channel_answer`
  unfoldable pub reasoning_channel_answer : Fields → (max_output_chars : ℕ) → Result Text
  unfolding reasoning_candidate
  reasoning_channel_answer message max_output_chars =
      elim (reasoning_candidate message reasoning_channel_keys) [
        | none ↦ ok []
        | some candidate ↦ do
          raise_if (ltb max_output_chars (length candidate)) invalid_output
          loaded ← need invalid_output (loads candidate)
          ok candidate
      ]

  -- whether the answer may stand in the reasoning channel
  abbrev pub takes_reasoning : Bool → Invocation → Text → List ToolRequest → Bool
  takes_reasoning structured_reasoning_channel invocation content requests =
      structured_reasoning_channel
      && is_some invocation.output_schema
      && is_empty invocation.tools
      && is_blank content
      && is_empty requests

  unfoldable pub final_content : Bool → Invocation → Fields → Text → List ToolRequest → Result Text
  unfolding reasoning_channel_answer
  final_content structured_reasoning_channel invocation message content requests =
      if takes_reasoning structured_reasoning_channel invocation content requests
      then reasoning_channel_answer message invocation.limits.max_output_chars
      else ok content

  -- The result of a payload with this text and these requests.
  unfoldable pub decoded_completion : Fields → Text → List ToolRequest → Result CompletionResult
  decoded_completion payload content requests = do
    model ← response_identity (get_or_null "model" payload)
    upstream ← response_identity (get_or_null "provider" payload)
    usage ← safe_usage number (get_or_null "usage" payload)
    ok (record {
      text = content;
      tool_requests = requests;
      effective_model = model;
      effective_upstream = upstream;
      usage = usage;
      effective_reasoning_effort = none;
    })

  -- `decode_chat`
  unfoldable pub decode_chat :
      Fields → Invocation → (structured_reasoning_channel : Bool) → Result CompletionResult
  unfolding chosen_message message_content message_calls final_content decoded_completion
  decode_chat payload invocation structured_reasoning_channel = do
    message ← chosen_message payload
    content ← message_content invocation.limits.max_output_chars (get_or_null "content" message)
    requests ← message_calls message
    answer ← final_content structured_reasoning_channel invocation message content requests
    raise_if (is_blank answer && is_empty requests) invalid_output
    decoded_completion payload answer requests
