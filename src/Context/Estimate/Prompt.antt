-- ===== src/Context/Estimate/Prompt.antt =====
-- `estimate_prompt_chars` of context.py: the larger of the two request shapes that the adapters
-- serialize. `json.dumps` refuses a float that is not finite, in a tool call's arguments or in
-- the chat shape as a whole, and so the estimate may raise.
use local_agent_runtime.Base.{ℕ, ◌+◌, codes, true, Option, none, some, List, [], ◌∷◌, map, length}
use local_agent_runtime.Failure.{Result, ok, ◌>>=◌}
use local_agent_runtime.Json.{Json, null, bool, str, arr, obj, Fields, end, field, items}
use local_agent_runtime.Json.Dumps.{compact, spaced, default_style, dumps, dumps_finite}
use local_agent_runtime.Contracts.{Message, ToolDefinition, ToolRequest}
use local_agent_runtime.Contracts.Public.{message_json, tool_definition_json, text_or_null}
use local_agent_runtime.Context.Estimate.{prompt_framing_chars, at_least}

abbrev pub schema_or_null : Option Fields → Json
schema_or_null none = null
schema_or_null (some schema) = obj schema

unfoldable pub cli_payload : List Message → List ToolDefinition → Option Fields → Json
unfolding message_json tool_definition_json
cli_payload messages tools output_schema = obj (
    field "messages" (arr (items (map message_json messages))) (
      field "tools" (arr (items (map tool_definition_json tools)))
        (field "final_content_json_schema" (schema_or_null output_schema) end)))

chat_call : ToolRequest → Result Json
unfolding dumps_finite
chat_call call = do
  arguments ← dumps_finite default_style (obj call.arguments)
  ok (
      obj (
        field "id" (str (codes call.id)) (
          field "type" (str (codes "function")) (
            field "function"
              (obj (field "name" (str (codes call.name)) (field "arguments" (str arguments) end)))
              end))))

chat_calls : List ToolRequest → Result (List Json)
unfolding chat_call
chat_calls [] = ok []
chat_calls (call ∷ calls) = do ok ((← chat_call call) ∷ (← chat_calls calls))

-- `item["tool_call_id"]` and `item["name"]`
reply_fields : Message → Fields
reply_fields message = elim message.tool_request_id [
  | none ↦ end
  | some id ↦
      field "tool_call_id" (str (codes id)) (field "name" (text_or_null message.tool_name) end)
]

calls_fields : List Json → Fields → Fields
calls_fields [] rest = rest
calls_fields (call ∷ calls) rest = field "tool_calls" (arr (items (call ∷ calls))) rest

chat_message : Message → Result Json
unfolding chat_calls reply_fields calls_fields
chat_message message = do
  calls ← chat_calls message.tool_requests
  ok (
      obj (
        field "role" (str (codes message.role))
          (field "content" (str message.content) (calls_fields calls (reply_fields message)))))

unfoldable pub chat_messages : List Message → Result (List Json)
unfolding chat_message
chat_messages [] = ok []
chat_messages (m ∷ ms) = do ok ((← chat_message m) ∷ (← chat_messages ms))

chat_tool : ToolDefinition → Json
chat_tool tool = obj (
    field "type" (str (codes "function")) (
      field "function"
        (obj (
          field "name" (str (codes tool.name)) (
            field "description" (str tool.description)
              (field "parameters" (obj tool.input_schema) end))))
        end))

response_format : Option Fields → Fields
response_format none = end
response_format (some schema) =
    field "response_format"
      (obj (
        field "type" (str (codes "json_schema")) (
          field "json_schema"
            (obj (
              field "name" (str (codes "runtime_output"))
                (field "strict" (bool true) (field "schema" (obj schema) end))))
            end)))
      end

unfoldable pub chat_payload : List Json → List ToolDefinition → Option Fields → Json
unfolding chat_tool response_format
chat_payload messages tools output_schema = obj (
    field "messages" (arr (items messages)) (
      field "tools" (arr (items (map chat_tool tools))) (
        field "stream_options" (obj (field "include_usage" (bool true) end))
          (response_format output_schema))))

unfoldable pub estimate_prompt_chars : List Message → List ToolDefinition → Option Fields → Result ℕ
unfolding cli_payload chat_messages chat_payload dumps dumps_finite
estimate_prompt_chars messages tools output_schema = do
  chat ← chat_messages messages
  shown ← dumps_finite spaced (chat_payload chat tools output_schema)
  ok (
      prompt_framing_chars
      + at_least (length (dumps compact (cli_payload messages tools output_schema))) (length shown))
