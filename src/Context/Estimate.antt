-- ===== src/Context/Estimate.antt =====
-- The estimators of context.py, and its constants. `len(s) / 3` and `tokens * 0.05` are float
-- operations there, with exact quotients here: `ceil` makes the same of both for every count
-- below 2 ** 48.
pub mod Laws
pub mod Prompt
use local_agent_runtime.Base.{
  ℕ, ◌+◌, ◌-◌, ◌*◌, ◌/◌, String, Text, codes, Bool, true, false, Option, none, some, List, [], ◌∷◌,
  ◌++◌, map, ltb, leb, if◌then◌else◌, length, all, sum_of, or_else, ℤ, sub_ℕ,
}
use local_agent_runtime.Failure.{Result, ok, err, ◌>>=◌}
use local_agent_runtime.Json.{Json, null, bool, str, arr, obj, Fields, end, field, items}
use local_agent_runtime.Json.Dumps.{compact, spaced, default_style, dumps, dumps_finite}
use local_agent_runtime.Contracts.{Message, ToolDefinition, ToolRequest, Limits, ContextWindow}
use local_agent_runtime.Contracts.Public.{message_json, tool_definition_json}

abbrev pub ascii_chars_per_token : ℕ
ascii_chars_per_token = 3

abbrev pub alphabetic_tokens_per_char : ℕ
alphabetic_tokens_per_char = 1

abbrev pub other_tokens_per_char : ℕ
other_tokens_per_char = 3

abbrev pub message_overhead_tokens : ℕ
message_overhead_tokens = 8

abbrev pub tool_overhead_tokens : ℕ
tool_overhead_tokens = 16

abbrev pub tool_call_overhead_tokens : ℕ
tool_call_overhead_tokens = 12

abbrev pub template_overhead_tokens : ℕ
template_overhead_tokens = 640

abbrev pub output_margin_min_tokens : ℕ
output_margin_min_tokens = 128

abbrev pub small_context_tokens : ℕ
small_context_tokens = 128000

abbrev pub output_floor_tokens : ℕ
output_floor_tokens = 2048

abbrev pub prompt_framing_chars : ℕ
prompt_framing_chars = 512

abbrev pub at_most : ℕ → ℕ → ℕ
at_most a b = if leb a b then a else b

abbrev pub at_least : ℕ → ℕ → ℕ
at_least a b = if leb a b then b else a

-- `math.ceil(n / 3)`
abbrev pub ceil_third : ℕ → ℕ
ceil_third n = (n + 2) / ascii_chars_per_token

-- the loop of `estimate_text_tokens` over the characters
unfoldable pub count_classes : Text → ℕ → ℕ → ℕ → ℕ
count_classes [] ascii_chars alphabetic other =
    ceil_third ascii_chars + alphabetic * alphabetic_tokens_per_char + other * other_tokens_per_char
count_classes (c ∷ s) ascii_chars alphabetic other =
    count_classes s (if ltb c 0x80 then ascii_chars + 1 else ascii_chars)
      (if ltb c 0x80 then alphabetic else if ltb c 0x2000 then alphabetic + 1 else alphabetic)
      (if ltb c 0x80 then other else if ltb c 0x2000 then other else other + 1)

abbrev pub is_ascii : Text → Bool
is_ascii s = all (λ c. ltb c 0x80) s

unfoldable pub estimate_text_tokens : Text → ℕ
unfolding count_classes
estimate_text_tokens s = if is_ascii s then ceil_third (length s) else count_classes s 0 0 0

unfoldable pub json_tokens : Json → ℕ
json_tokens value = estimate_text_tokens (dumps compact value)

call_tokens : ToolRequest → ℕ
call_tokens call =
    tool_call_overhead_tokens
    + estimate_text_tokens (codes call.id)
    + estimate_text_tokens (codes call.name)
    + json_tokens (obj call.arguments)

reply_tokens : Message → ℕ
reply_tokens message = elim message.tool_request_id [
  | none ↦ 0
  | some id ↦
      estimate_text_tokens (codes id) + estimate_text_tokens (codes (or_else message.tool_name ""))
]

unfoldable pub estimate_message_tokens : Message → ℕ
unfolding call_tokens reply_tokens
estimate_message_tokens message =
    message_overhead_tokens
    + estimate_text_tokens message.content
    + sum_of call_tokens message.tool_requests
    + reply_tokens message

tool_tokens : ToolDefinition → ℕ
tool_tokens tool =
    tool_overhead_tokens
    + estimate_text_tokens (codes tool.name)
    + estimate_text_tokens tool.description
    + json_tokens (obj tool.input_schema)

unfoldable pub estimate_tools_tokens : List ToolDefinition → Option Fields → ℕ
unfolding tool_tokens
estimate_tools_tokens tools output_schema = sum_of tool_tokens tools + elim output_schema [
  | none ↦ 0
  | some schema ↦ tool_overhead_tokens + json_tokens (obj schema)
]

-- `max(128, math.ceil(capacity * 0.05))`
unfoldable pub output_margin : ℕ → ℕ
output_margin capacity = at_least output_margin_min_tokens ((capacity + 19) / 20)

-- The result may be negative.
unfoldable pub input_budget : ContextWindow → Limits → Option ℕ → Option ℤ
input_budget window limits output_tokens = elim window.tokens [
  | none ↦ none
  | some tokens ↦
      some (sub_ℕ tokens (or_else output_tokens limits.max_output_tokens + output_margin tokens))
]

unfoldable pub output_floor : Limits → ℕ
output_floor limits = at_most limits.max_output_tokens output_floor_tokens
