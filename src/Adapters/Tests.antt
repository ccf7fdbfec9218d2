-- ===== src/Adapters/Tests.antt =====
-- A short exchange with each codec.
use local_agent_runtime.Base.{
  ℕ, ◌≤◌, String, Text, codes, ◌≡◌, refl, arith, true, false, ◌&&◌, Option, none, some, List, [],
  ◌∷◌, length, flatten, is_empty, is_blank, strip, All, ℤ, pos,
}
use local_agent_runtime.Failure.{ok, ◌>>=◌}
use local_agent_runtime.Json.{Json, null, num, str, arr, obj, Fields, end, field, items}
use local_agent_runtime.Json.Dumps.{dumps_finite}
use local_agent_runtime.Json.Read.{count_of}
use local_agent_runtime.Contracts.{
  default_limits, plain_message, Invocation, ModelProfile, CompletionResult,
}
use local_agent_runtime.Adapters.Chat.{chat_body, chat_body_chars, chat_prompt_chars}
use local_agent_runtime.Adapters.Transport.{response_identity, safe_counts, safe_usage}
use local_agent_runtime.Adapters.Chat.Decode.{
  calls_of, chosen_message, message_content, message_calls, final_content, decoded_completion,
  decode_chat,
}
use local_agent_runtime.Adapters.Chat.Decode.Checked.{IsDelivered, decode_chat-IsDelivered}
use local_agent_runtime.Adapters.Chat.Stream.{
  ChatStreamDecoder, new_decoder, same_model, update_fields, new_text, add_text, accept_calls,
  finish_after, finish_choice, accept_choice, accept_choices, accept, accept_all, complete,
}
use local_agent_runtime.Adapters.Chat.Stream.Shown.{stream-shows-result}
use local_agent_runtime.Adapters.Cli.{parse_envelope}
use local_agent_runtime.Adapters.Cli.Envelope.{IsCall, parse_envelope-IsCall}
use local_agent_runtime.Adapters.Events.{stream_json_sse, drain, read_frame}
use local_agent_runtime.Adapters.Events.Chunks.{stream_json_sse-chunks}
use local_agent_runtime.Adapters.LmStudio.{
  compatible, Messages, lmstudio_response_failure, is_structured_context_window_error,
}
use local_agent_runtime.Adapters.LmStudio.Answers.{
  lmstudio_prompt_chars-covers, lmstudio_complete_streaming-shows,
}
use local_agent_runtime.Adapters.LmStudio.Grammar.{
  lacks_lengths, compatible-lacks_lengths, compatible-same,
}
use local_agent_runtime.Adapters.LmStudio.Body.{
  lmstudio_chat_body, lmstudio_prompt_chars, lmstudio_complete_streaming,
}
use local_agent_runtime.Adapters.LmStudio.Catalog.{loaded_context_length}
use local_agent_runtime.Adapters.LmStudio.Catalog.Bounds.{loaded_context_length-bounds}
use local_agent_runtime.Adapters.Chat.Size.{chat_body-chat_prompt_chars}

abbrev profile : ModelProfile
profile = record {
  id = "main";
  provider_id = "studio";
  model = "small";
  allow_external_processing = false;
  allow_private_processing = false;
  limits = default_limits;
  qualified_tasks = [];
  reasoning_efforts = [];
  default_reasoning_effort = none;
  model_options = [];
  catalog_model_tasks = [];
}

abbrev invocation : Invocation
invocation = record {
  messages = plain_message "user" (codes "Hi") ∷ [];
  tools = [];
  limits = default_limits;
  output_schema = none;
  reasoning_effort = none;
  provider_native_web = false;
}

abbrev loads : Text → Option Json
loads s = some (obj end)

abbrev number : Text → Option ℤ
number s = some (pos 1)

prompt-measured : chat_prompt_chars profile invocation true ≡ ok 146
unfolding chat_prompt_chars chat_body dumps_finite chat_body_chars
prompt-measured = refl

chat_body-chat_prompt_chars_example :
    (chat_body profile invocation true >>= chat_body_chars) ≡ ok 146
chat_body-chat_prompt_chars_example =
    chat_body-chat_prompt_chars profile invocation true 146 prompt-measured

-- Two chunks, the second with the finish reason.
abbrev chunk : Text → Json → Fields
chunk text finish =
    field "choices"
      (arr (
        items (
          obj (
            field "delta" (obj (field "content" (str text) end)) (field "finish_reason" finish end))
          ∷ [])))
      end

abbrev chunks : List Fields
chunks = chunk (codes "Go") null ∷ chunk (codes "od") (str (codes "stop")) ∷ []

abbrev pieces : List Text
pieces = codes "Go" ∷ codes "od" ∷ []

abbrev filled : ChatStreamDecoder
filled = record {
  invocation = invocation;
  text_parts = pieces;
  text_chars = 4;
  calls = [];
  finish_reason = some (codes "stop");
  model = none;
  usage = end;
  refused = false;
}

chunks-accepted : accept_all loads number (new_decoder invocation) chunks ≡ ok (pieces, filled)
unfolding accept_all accept response_identity safe_counts accept_choices accept_choice new_text
    finish_choice calls_of accept_calls finish_after add_text same_model update_fields
chunks-accepted = refl

stream-shows-result_example :
    All (λ text. is_empty text ≡ false) pieces
    × (4 ≡ length (flatten pieces))
    × (length (flatten pieces) ≤ 50000)
    × ((result : CompletionResult)
        → complete loads number filled ≡ ok result
        → result.text ≡ flatten pieces)
stream-shows-result_example =
    stream-shows-result loads number invocation chunks pieces filled chunks-accepted

abbrev answer : CompletionResult
answer = record {
  text = codes "Good";
  tool_requests = [];
  effective_model = none;
  effective_upstream = none;
  usage = [];
  effective_reasoning_effort = none;
}

abbrev whole : Fields
whole =
    field "choices"
      (arr (
        items (
          obj (
            field "finish_reason" (str (codes "stop"))
              (field "message" (obj (field "content" (str (codes "Good")) end)) end))
          ∷ [])))
      end

whole-decoded : decode_chat loads number whole invocation false ≡ ok answer
unfolding decode_chat chosen_message message_content message_calls final_content decoded_completion
    is_blank response_identity safe_usage
whole-decoded = refl

decode_chat-IsDelivered_example : IsDelivered invocation answer
decode_chat-IsDelivered_example =
    decode_chat-IsDelivered loads number whole invocation false answer whole-decoded

abbrev messages : Messages
messages = record { leading_json = λ s. none; window_message = λ s. none }

streamed :
    lmstudio_complete_streaming loads number messages [] profile (λ body. (chunks, none)) invocation
    ≡ (ok answer, pieces)
unfolding lmstudio_complete_streaming chat_body chat_body_chars lmstudio_response_failure
    is_structured_context_window_error accept response_identity safe_counts complete decode_chat
    is_blank safe_usage
streamed = refl

lmstudio_complete_streaming-shows_example :
    (answer.text ≡ flatten pieces)
    × (length answer.text ≤ 50000)
    × ((model : String) → answer.effective_model ≡ some model → model ≡ profile.model)
lmstudio_complete_streaming-shows_example =
    lmstudio_complete_streaming-shows loads number messages [] profile (λ body. (chunks, none))
      invocation answer pieces streamed

window-measured : lmstudio_prompt_chars profile invocation ≡ ok 146
unfolding lmstudio_prompt_chars chat_body dumps_finite chat_body_chars
window-measured = refl

lmstudio_prompt_chars-covers_example :
    (chars : ℕ) × ((lmstudio_chat_body profile invocation true >>= chat_body_chars) ≡ ok chars)
    × (chars ≤ 146)
lmstudio_prompt_chars-covers_example =
    lmstudio_prompt_chars-covers profile invocation 146 window-measured (ground arith) true

abbrev tool_schema : Fields
tool_schema =
    field "properties" (obj (field "minLength" (obj (field "minLength" (num (codes "1")) end)) end))
      (field "maxLength" (num (codes "9")) end)

compatible-lacks_lengths_example : lacks_lengths (compatible tool_schema) ≡ true
compatible-lacks_lengths_example = compatible-lacks_lengths tool_schema

-- A property and a constant may have the name of a keyword.
abbrev plain_schema : Fields
plain_schema =
    field "properties" (obj (field "minLength" (obj (field "type" (str (codes "string")) end)) end))
      (field "const" (obj (field "maxLength" (num (codes "9")) end)) end)

plain-lacks : lacks_lengths plain_schema ≡ true
unfolding lacks_lengths
plain-lacks = refl

compatible-same_example : compatible plain_schema ≡ plain_schema
compatible-same_example = compatible-same plain_schema plain-lacks

abbrev native : Json
native = arr (
    items (
      obj (
        field "key" (str (codes "small")) (
          field "loaded_instances"
            (arr (
              items (
                obj (field "config" (obj (field "context_length" (num (codes "8192")) end)) end)
                ∷ [])))
            end))
      ∷ []))

native-loaded : loaded_context_length native "small" ≡ some 8192
unfolding loaded_context_length count_of
native-loaded = refl

loaded_context_length-bounds_example : (1 ≤ 8192) × (8192 ≤ 999999999)
loaded_context_length-bounds_example =
    loaded_context_length-bounds native "small" 8192 native-loaded

abbrev envelope : Fields
envelope = field "content" (str (codes "Good")) (field "tool_calls" (arr (items [])) end)

envelope-parsed : parse_envelope (λ s. some (obj envelope)) (codes "{}") profile ≡ ok answer
unfolding parse_envelope strip
envelope-parsed = refl

parse_envelope-IsCall_example :
    ((is_empty answer.tool_requests && is_empty answer.text) ≡ false)
    × (length answer.tool_requests ≤ 128)
    × All IsCall answer.tool_requests
parse_envelope-IsCall_example =
    parse_envelope-IsCall (λ s. some (obj envelope)) (codes "{}") profile answer envelope-parsed

-- A stream whose boundary falls between two chunks.
abbrev split_bytes : List (List ℕ)
split_bytes = codes "data: {}\n" ∷ codes "\ndata: [DONE]\n\n" ∷ []

split-yielded : stream_json_sse (λ s. some s) loads 200 100 split_bytes none ≡ (end ∷ [], none)
unfolding stream_json_sse drain read_frame
split-yielded = refl

stream_json_sse-chunks_example :
    stream_json_sse (λ s. some s) loads 200 100 split_bytes none
    ≡ stream_json_sse (λ s. some s) loads 200 100 (flatten split_bytes ∷ []) none
stream_json_sse-chunks_example =
    stream_json_sse-chunks (λ s. some s) loads 200 100 split_bytes none (ground arith)
