-- ===== src/Adapters/LmStudio.antt =====
-- adapters/providers/lmstudio.py: the requests to LM Studio and what is read from its answers.
-- The HTTP client, `re` and `json` are parameters: a call that raised is a failure.
pub mod Body
pub mod Planned
pub mod Catalog
pub mod Answers
pub mod Grammar
use local_agent_runtime.Base.{
  ℕ, ◌+◌, ◌*◌, String, Text, codes, strip, starts_with, drop, Bool, true, false, not, ◌&&◌, ◌||◌,
  Option, none, some, List, [], ◌∷◌, map, leb, ltb, ◌==◌, if◌then◌else◌, length, str_eq, same_text,
  member, or_else,
}
use local_agent_runtime.Failure.{Failure, Result, ok, err, runtime_failure, ◌>>=◌, ◌>>◌, raise_if}
use local_agent_runtime.Json.{
  Json, null, bool, num, nonfinite, str, arr, obj, Items, nil, cons, Fields, end, field,
}
use local_agent_runtime.Json.Dumps.{default_style, dumps}
use local_agent_runtime.Json.Read.{get, get_or_null, count_of, text_of, fields_of, equals_text}
use local_agent_runtime.Contracts.{
  ReasoningEffort, minimal, low, medium, high, has_effort, ToolDefinition, Invocation, ModelProfile,
  CompletionResult,
}

-- `_stream_response_limit`
unfoldable pub stream_response_limit : ModelProfile → Invocation → ℕ
unfolding dumps
stream_response_limit profile invocation =
    let identity = length (dumps default_style (str (codes profile.model))) in
    64000
    + invocation.limits.max_output_chars * 6
    + (invocation.limits.max_output_tokens + 8) * (512 + 256 + identity)

abbrev pub map_keywords : List String
map_keywords =
    "$defs" ∷ "definitions" ∷ "dependencies" ∷ "dependentSchemas" ∷ "patternProperties"
    ∷ "properties" ∷ []

abbrev pub single_keywords : List String
single_keywords =
    "additionalItems" ∷ "additionalProperties" ∷ "contains" ∷ "contentSchema" ∷ "else" ∷ "if"
    ∷ "items" ∷ "not" ∷ "propertyNames" ∷ "then" ∷ "unevaluatedItems" ∷ "unevaluatedProperties" ∷ []

abbrev pub sequence_keywords : List String
sequence_keywords =
    "allOf" ∷ "anyOf" ∷ "oneOf" ∷ "prefixItems" ∷ "additionalItems" ∷ "additionalProperties"
    ∷ "contains" ∷ "contentSchema" ∷ "else" ∷ "if" ∷ "items" ∷ "not" ∷ "propertyNames" ∷ "then"
    ∷ "unevaluatedItems" ∷ "unevaluatedProperties" ∷ []

abbrev pub is_unsupported : String → Bool
is_unsupported key = member key ("minLength" ∷ "maxLength" ∷ [])

-- `_grammar_compatible_schema`, and its comprehensions over the values that hold schemas.
unfoldable mutual
  pub compatible : Fields → Fields
  compatible end = end
  compatible (field key value fs) =
      let rest = compatible fs in
      if is_unsupported key then rest else field key (compatible_value key value) rest

  pub compatible_value : (key : String) → Json → Json
  compatible_value key (obj fs) =
      if member key map_keywords
      then obj (compatible_map fs)
      else if member key single_keywords
      then obj (compatible fs)
      else obj fs
  compatible_value key (arr xs) =
      if member key sequence_keywords then arr (compatible_items xs) else arr xs
  compatible_value key value = value

  -- a schema under each name
  pub compatible_map : Fields → Fields
  compatible_map end = end
  compatible_map (field name item fs) = field name (compatible_item item) (compatible_map fs)

  pub compatible_items : Items → Items
  compatible_items nil = nil
  compatible_items (cons item xs) = cons (compatible_item item) (compatible_items xs)

  pub compatible_item : Json → Json
  compatible_item (obj fs) = obj (compatible fs)
  compatible_item item = item

abbrev pub engine_error_prefix : Text
engine_error_prefix = codes "Engine protocol predict request returned 400: "

-- `x == 400`
is_400 : Json → Bool
is_400 (num n) = same_text n (codes "400") || same_text n (codes "400.0")
is_400 _ = false

-- `0 < available < required <= 999_999_999` on integers
exceeds : Option ℕ → Option ℕ → Bool
exceeds (some required) (some available) =
    ltb 0 available && ltb available required && leb required 999999999
exceeds _ _ = false

-- `_is_structured_context_window_error`
unfoldable pub is_structured_context_window_error : Json → Bool
unfolding is_400 exceeds
is_structured_context_window_error (obj error) =
    is_400 (get_or_null "code" error)
    && equals_text (get_or_null "type" error) "exceed_context_size_error"
    && exceeds (count_of (get_or_null "n_prompt_tokens" error))
        (count_of (get_or_null "n_ctx" error))
is_structured_context_window_error _ = false

-- What the standard library makes of a message.
pub record Messages : Type 0 where
  -- `json.JSONDecoder().raw_decode`: the leading value, or nothing where it raises
  pub leading_json : Text → Option Json
  -- the groups `required` and `available` of `CONTEXT_WINDOW_MESSAGE.fullmatch`
  pub window_message : Text → Option (ℕ × ℕ)

native_error : Option Json → Bool
native_error (some (obj native)) = is_structured_context_window_error (get_or_null "error" native)
native_error _ = false

-- `_is_context_window_message`
unfoldable pub is_context_window_message : Messages → Text → Bool
unfolding native_error
is_context_window_message messages message =
    if ltb 2048 (length message)
    then false
    else if starts_with engine_error_prefix message
    then native_error (messages.leading_json (drop (length engine_error_prefix) message))
    else elim (messages.window_message (strip message)) [
      | none ↦ false
      | some (required, available) ↦ ltb available required
    ]

-- The message of a response's error.
error_message : Json → Option Text
error_message (str s) = some s
error_message (obj error) = text_of (get_or_null "message" error)
error_message _ = none

abbrev pub window_exceeded : Failure
window_exceeded =
    runtime_failure "context_window_exceeded"
      "The request exceeds the selected model's available context window" 400

-- `_lmstudio_response_failure`
unfoldable pub lmstudio_response_failure : Messages → Fields → Option Failure
unfolding error_message
lmstudio_response_failure messages payload =
    let error = get_or_null "error" payload in
    if is_structured_context_window_error error
    then some window_exceeded
    else elim (error_message error) [
      | none ↦ none
      | some message ↦
          if is_context_window_message messages message then some window_exceeded else none
    ]

-- `TRANSPORT_EFFORTS`
abbrev pub transport_efforts : List ReasoningEffort
transport_efforts = minimal ∷ low ∷ medium ∷ high ∷ []

abbrev pub unsupported_effort : Failure
unsupported_effort =
    runtime_failure "reasoning_effort_unsupported"
      "The requested reasoning effort is not supported by this profile" 400

-- The effort that an invocation asks for is among the adapter's.
unfoldable pub check_effort : List ReasoningEffort → Option ReasoningEffort → Result (Unit {0})
check_effort efforts none = ok tt
check_effort efforts (some effort) = raise_if (not (has_effort effort efforts)) unsupported_effort

-- `_checked_result`
unfoldable pub checked_result : ModelProfile → CompletionResult → Result CompletionResult
checked_result profile result = elim result.effective_model [
  | none ↦ ok result
  | some model ↦
      if str_eq model profile.model
      then ok result
      else err
          (runtime_failure "provider_model_mismatch" "The provider returned a different model" 502)
]
