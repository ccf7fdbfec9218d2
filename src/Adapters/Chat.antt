-- ===== src/Adapters/Chat.antt =====
-- adapters/chat_codec.py: the OpenAI-compatible request body and its size.
pub mod Size
pub mod Tokens
pub mod Decode
pub mod Stream
use local_agent_runtime.Base.{
  ℕ, ◌^◌, String, codes, decimal, Bool, true, false, Option, none, some, List, [], ◌∷◌, map, ltb,
  if◌then◌else◌, length,
}
use local_agent_runtime.Failure.{Failure, Result, ok, err, runtime_failure, ◌>>=◌, ◌>>◌, raise_if}
use local_agent_runtime.Json.{Json, null, bool, num, str, arr, obj, Fields, end, field, items}
use local_agent_runtime.Json.Dumps.{spaced, default_style, dumps_finite}
use local_agent_runtime.Contracts.{
  Message, ToolDefinition, ToolRequest, Invocation, ModelProfile, ReasoningEffort, effort_value,
}
use local_agent_runtime.Contracts.Public.{text_or_null}

call_json : ToolRequest → Result Json
unfolding dumps_finite
call_json call = do
  arguments ← dumps_finite default_style (obj call.arguments)
  ok (
      obj (
        field "id" (str (codes call.id)) (
          field "type" (str (codes "function")) (
            field "function"
              (obj (field "name" (str (codes call.name)) (field "arguments" (str arguments) end)))
              end))))

call_list : List ToolRequest → Result (List Json)
unfolding call_json
call_list [] = ok []
call_list (call ∷ calls) = do ok ((← call_json call) ∷ (← call_list calls))

-- `item["tool_calls"]`, where there are calls
calls_field : List Json → Fields → Fields
calls_field [] rest = rest
calls_field (call ∷ calls) rest = field "tool_calls" (arr (items (call ∷ calls))) rest

result_fields : Option String → Option String → Fields
result_fields none tool_name = end
result_fields (some id) tool_name =
    field "tool_call_id" (str (codes id)) (field "name" (text_or_null tool_name) end)

message_item : Message → Result Json
unfolding call_list calls_field result_fields
message_item message = do
  calls ← call_list message.tool_requests
  ok (
      obj (
        field "role" (str (codes message.role)) (
          field "content" (str message.content)
            (calls_field calls (result_fields message.tool_request_id message.tool_name)))))

-- `body["messages"]`
pub message_items : List Message → Result (List Json)
unfolding message_item
message_items [] = ok []
message_items (m ∷ ms) = do ok ((← message_item m) ∷ (← message_items ms))

tool_item : ToolDefinition → Json
tool_item tool = obj (
    field "type" (str (codes "function")) (
      field "function"
        (obj (
          field "name" (str (codes tool.name)) (
            field "description" (str tool.description)
              (field "parameters" (obj tool.input_schema) end))))
        end))

stream_field : Bool → Fields → Fields
stream_field false rest = rest
stream_field true rest = field "stream_options" (obj (field "include_usage" (bool true) end)) rest

tools_fields : List ToolDefinition → Fields → Fields
unfolding tool_item
tools_fields [] rest = rest
tools_fields (tool ∷ tools) rest =
    field "tools" (arr (items (map tool_item (tool ∷ tools))))
      (field "tool_choice" (str (codes "auto")) rest)

effort_field : Option ReasoningEffort → Fields → Fields
effort_field none rest = rest
effort_field (some effort) rest = field "reasoning_effort" (str (codes (effort_value effort))) rest

format_field : Option Fields → Fields
format_field none = end
format_field (some schema) =
    field "response_format"
      (obj (
        field "type" (str (codes "json_schema")) (
          field "json_schema"
            (obj (
              field "name" (str (codes "runtime_output"))
                (field "strict" (bool true) (field "schema" (obj schema) end))))
            end)))
      end

-- What follows `"stream"` in the body.
pub optional_fields : Invocation → Bool → Fields
unfolding stream_field tools_fields effort_field format_field
optional_fields invocation stream = stream_field stream (
    tools_fields invocation.tools
      (effort_field invocation.reasoning_effort (format_field invocation.output_schema)))

-- The body, before its size is checked.
pub body_fields : ModelProfile → Invocation → Bool → List Json → Fields
unfolding optional_fields
body_fields profile invocation stream messages = field "model" (str (codes profile.model)) (
    field "messages" (arr (items messages)) (
      field "max_tokens" (num (decimal invocation.limits.max_output_tokens))
        (field "stream" (bool stream) (optional_fields invocation stream))))

-- `chat_body_chars`
unfoldable pub chat_body_chars : Fields → Result ℕ
unfolding dumps_finite
chat_body_chars body = do shown ← dumps_finite spaced (obj body); ok (length shown)

abbrev pub input_too_long : Failure
input_too_long = runtime_failure "input_limit_exceeded" "The session input exceeds its limit" 400

pub bounded_body : (max_input_chars : ℕ) → Fields → Result Fields
bounded_body max_input_chars body = do
  chars ← chat_body_chars body
  raise_if (ltb max_input_chars chars) input_too_long
  ok body

-- `chat_body`
unfoldable pub chat_body : ModelProfile → Invocation → (stream : Bool) → Result Fields
unfolding message_items body_fields bounded_body
chat_body profile invocation stream = do
  messages ← message_items invocation.messages
  bounded_body invocation.limits.max_input_chars (body_fields profile invocation stream messages)

abbrev pub unbounded : Invocation → Invocation
unbounded invocation = record invocation {
  limits = record invocation.limits { max_input_chars = 2 ^ 62 };
}

-- `chat_prompt_chars`
unfoldable pub chat_prompt_chars : ModelProfile → Invocation → (stream : Bool) → Result ℕ
chat_prompt_chars profile invocation stream = do
  body ← chat_body profile (unbounded invocation) stream
  chat_body_chars body
