-- ===== src/Adapters/Cli.antt =====
-- adapters/cli_codec.py: the prompt that a provider's command is given and the envelope that it
-- answers with. `loads` is `json.loads`, without a value where it raises.
pub mod Envelope
pub mod Estimated
pub mod Planned
use local_agent_runtime.Base.{
  ℕ, String, Text, codes, string_of, flatten, map, strip, Bool, true, false, not, ◌&&◌, ◌||◌,
  Option, none, some, List, [], ◌∷◌, ◌++◌, ltb, if◌then◌else◌, length, is_empty,
}
use local_agent_runtime.Failure.{Failure, Result, ok, err, runtime_failure, ◌>>=◌, ◌>>◌, raise_if}
use local_agent_runtime.Json.{Json, null, bool, num, str, arr, obj, Fields, end, field, items}
use local_agent_runtime.Json.Dumps.{compact, dumps}
use local_agent_runtime.Json.Read.{
  get_or_null, only_fields, has_fields, text_of, fields_of, list_of, need,
}
use local_agent_runtime.Contracts.{
  Message, ToolDefinition, ToolRequest, Invocation, ModelProfile, CompletionResult,
}
use local_agent_runtime.Contracts.Public.{message_json, tool_definition_json}

unfoldable pub schema_value : Option Fields → Json
schema_value none = null
schema_value (some schema) = obj schema

-- the dictionary of `cli_payload`
unfoldable pub prompt_payload : Invocation → Json
unfolding message_json tool_definition_json schema_value
prompt_payload invocation = obj (
    field "messages" (arr (items (map message_json invocation.messages))) (
      field "tools" (arr (items (map tool_definition_json invocation.tools)))
        (field "final_content_json_schema" (schema_value invocation.output_schema) end)))

-- `cli_payload`
unfoldable pub cli_payload_text : Invocation → Text
unfolding prompt_payload dumps
cli_payload_text invocation = dumps compact (prompt_payload invocation)

-- `cli_prompt_chars`
abbrev pub cli_prompt_chars : Invocation → ℕ
cli_prompt_chars invocation = length (cli_payload_text invocation)

abbrev pub prompt_too_long : Failure
prompt_too_long = runtime_failure "input_limit_exceeded" "The session input exceeds its limit" 400

-- `", ".join(names)`
joined_names : List String → Text
joined_names [] = []
joined_names (name ∷ []) = codes name
joined_names (name ∷ (next ∷ rest)) = codes name ++ (codes ", " ++ joined_names (next ∷ rest))

-- `joined or "none"`
tool_names : List ToolDefinition → Text
unfolding joined_names
tool_names tools =
    let names = joined_names (map (λ (tool : ToolDefinition). tool.name) tools) in
    if is_empty names then codes "none" else names

abbrev native_tool_policy : Bool → String
native_tool_policy true =
    "You may internally use only the provider's native public-web search and page-retrieval tools. Do not return those native calls in tool_calls. Do not use any other native tool. "
native_tool_policy false = "Do not use any provider-native tool. "

-- What stands before the payload.
unfoldable pub prompt_instructions : Bool → List ToolDefinition → Text
unfolding tool_names
prompt_instructions native_web tools =
    codes
      "Return only one JSON object with keys content and tool_calls. content must be a string. tool_calls must be a list of objects with id, name, and arguments. arguments must be a JSON-encoded string containing the tool argument object. name must be exactly one of these supplied application-tool catalog names and nothing else: "
    ++ (tool_names tools
        ++ (codes ". "
            ++ (codes (native_tool_policy native_web)
                ++ codes
                    "If no application tool is needed, return the final answer in content and an empty tool_calls list. If final_content_json_schema is supplied, content must be a JSON string conforming to that schema.\n\n")))

-- `_bounded_prompt`
unfoldable pub bounded_prompt : Invocation → (allow_provider_native_web : Bool) → Result Text
unfolding prompt_instructions
bounded_prompt invocation allow_provider_native_web = do
  let serialized = cli_payload_text invocation
  raise_if (ltb invocation.limits.max_input_chars (length serialized)) prompt_too_long
  ok (prompt_instructions allow_provider_native_web invocation.tools ++ serialized)

abbrev pub provider_unavailable : String → Failure
provider_unavailable message = runtime_failure "provider_unavailable" message 503

-- `set(d) == {…}`
abbrev pub exactly : List String → Fields → Bool
exactly names fs = only_fields names fs && has_fields names fs

abbrev pub bad_request : Failure
bad_request = provider_unavailable "The provider returned an invalid tool request"

abbrev pub bad_arguments : Failure
bad_arguments = provider_unavailable "The provider returned invalid tool arguments"

abbrev pub bad_envelope : Failure
bad_envelope = provider_unavailable "The provider returned an invalid structured envelope"

-- The content and the calls of an envelope.
unfoldable pub envelope_parts : Json → Result (Text × List Json)
envelope_parts value = do
  payload ← need bad_envelope (fields_of value)
  raise_if (not (exactly ("content" ∷ "tool_calls" ∷ []) payload)) bad_envelope
  content ← need bad_envelope (text_of (get_or_null "content" payload))
  calls ← need bad_envelope (list_of (get_or_null "tool_calls" payload))
  raise_if (ltb 128 (length calls)) bad_envelope
  ok (content, calls)

module _ (loads : Text → Option Json) where
  -- one iteration of the loop over the calls
  unfoldable pub envelope_call : Json → Result ToolRequest
  envelope_call value = do
    call ← need bad_request (fields_of value)
    raise_if (not (exactly ("id" ∷ "name" ∷ "arguments" ∷ []) call)) bad_request
    id ← need bad_request (text_of (get_or_null "id" call))
    raise_if (is_empty id || ltb 128 (length id)) bad_request
    name ← need bad_request (text_of (get_or_null "name" call))
    raise_if (is_empty name) bad_request
    shown ← need bad_request (text_of (get_or_null "arguments" call))
    loaded ← need bad_arguments (loads shown)
    arguments ← need bad_arguments (fields_of loaded)
    ok (record { id = string_of id; name = string_of name; arguments = arguments })

  unfoldable pub envelope_calls : List Json → Result (List ToolRequest)
  unfolding envelope_call
  envelope_calls [] = ok []
  envelope_calls (call ∷ calls) = do ok ((← envelope_call call) ∷ (← envelope_calls calls))

  -- `_parse_envelope`
  unfoldable pub parse_envelope : Text → ModelProfile → Result CompletionResult
  unfolding envelope_calls envelope_parts
  parse_envelope raw profile = do
    let value = strip raw
    raise_if (is_empty value) (provider_unavailable "The provider returned empty output")
    raise_if (ltb profile.limits.max_output_chars (length value))
        (runtime_failure "output_limit_exceeded" "The provider output exceeds its limit" 400)
    payload ←
        need (provider_unavailable "The provider returned malformed structured output")
          (loads value)
    parts ← envelope_parts payload
    requests ← envelope_calls parts.1
    raise_if (is_empty requests && is_empty (strip parts.0))
        (provider_unavailable "The provider returned neither output nor a tool request")
    ok (record {
      text = strip parts.0;
      tool_requests = requests;
      effective_model = none;
      effective_upstream = none;
      usage = [];
      effective_reasoning_effort = none;
    })

abbrev text_list : List String → Json
text_list names = arr (items (map (λ name. str (codes name)) names))

name_schema : List String → Json
name_schema [] = obj (field "type" (str (codes "string")) (field "minLength" (num (codes "1")) end))
name_schema (name ∷ names) =
    obj (field "type" (str (codes "string")) (field "enum" (text_list (name ∷ names)) end))

item_schema : List String → Json
unfolding name_schema
item_schema names = obj (
    field "type" (str (codes "object")) (
      field "additionalProperties" (bool false) (
        field "required" (text_list ("id" ∷ "name" ∷ "arguments" ∷ [])) (
          field "properties"
            (obj (
              field "id"
                (obj
                  (field "type" (str (codes "string")) (field "minLength" (num (codes "1")) end)))
                (field "name" (name_schema names)
                  (field "arguments" (obj (field "type" (str (codes "string")) end)) end))))
            end))))

-- `_output_schema`
unfoldable pub output_schema_for : List String → Json
unfolding item_schema
output_schema_for names = obj (
    field "type" (str (codes "object")) (
      field "additionalProperties" (bool false) (
        field "required" (text_list ("content" ∷ "tool_calls" ∷ [])) (
          field "properties"
            (obj (
              field "content" (obj (field "type" (str (codes "string")) end)) (
                field "tool_calls"
                  (obj (
                    field "type" (str (codes "array")) (
                      field "maxItems" (num (if is_empty names then codes "0" else codes "128"))
                        (field "items" (item_schema names) end))))
                  end)))
            end))))
