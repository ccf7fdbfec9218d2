-- ===== src/Contracts/Public.antt =====
-- The `public_dict` forms of contracts.py that are measured as JSON.
use local_agent_runtime.Base.{String, codes, Option, none, some, map}
use local_agent_runtime.Json.{Json, null, str, arr, obj, end, field, items}
use local_agent_runtime.Contracts.{Message, ToolDefinition, ToolRequest}

abbrev pub text_or_null : Option String → Json
text_or_null none = null
text_or_null (some s) = str (codes s)

-- `ToolDefinition.public_dict`
unfoldable pub tool_definition_json : ToolDefinition → Json
tool_definition_json tool = obj (
    field "name" (str (codes tool.name)) (
      field "description" (str tool.description)
        (field "input_schema" (obj tool.input_schema) end)))

-- `ToolRequest.public_dict`
unfoldable pub tool_request_json : ToolRequest → Json
tool_request_json call = obj (
    field "id" (str (codes call.id))
      (field "name" (str (codes call.name)) (field "arguments" (obj call.arguments) end)))

-- `Message.public_dict`
unfoldable pub message_json : Message → Json
unfolding tool_request_json
message_json message = obj (
    field "role" (str (codes message.role)) (
      field "content" (str message.content) (
        field "tool_requests" (arr (items (map tool_request_json message.tool_requests))) (
          field "tool_request_id" (text_or_null message.tool_request_id)
            (field "tool_name" (text_or_null message.tool_name) end)))))
