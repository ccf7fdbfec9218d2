-- ===== src/Adapters/LmStudio/Body.antt =====
-- adapters/providers/lmstudio.py: the chat body and its size, and the two completions. `request`
-- is the HTTP call of each with its body.
use local_agent_runtime.Base.{
  ℕ, Text, Bool, true, false, Option, none, some, List, [], ◌∷◌, ◌++◌, map, ℤ,
}
use local_agent_runtime.Failure.{Failure, Result, ok, err, ◌>>=◌, ◌>>◌}
use local_agent_runtime.Json.{Json, Fields}
use local_agent_runtime.Contracts.{
  ReasoningEffort, ToolDefinition, Invocation, ModelProfile, CompletionResult,
}
use local_agent_runtime.Context.Estimate.{at_least}
use local_agent_runtime.Adapters.Chat.{chat_body, chat_body_chars, unbounded}
use local_agent_runtime.Adapters.Chat.Decode.{decode_chat}
use local_agent_runtime.Adapters.Chat.Stream.{
  ChatStreamDecoder, Accepted, new_decoder, accept, complete,
}
use local_agent_runtime.Adapters.LmStudio.{
  compatible, Messages, lmstudio_response_failure, check_effort, checked_result,
}

-- `wire_invocation`
abbrev pub wired : Invocation → Invocation
wired invocation = record invocation {
  tools =
      map (λ (tool : ToolDefinition). record tool { input_schema = compatible tool.input_schema })
        invocation.tools;
}

-- `_lmstudio_chat_body`
unfoldable pub lmstudio_chat_body : ModelProfile → Invocation → (stream : Bool) → Result Fields
lmstudio_chat_body profile invocation stream = chat_body profile (wired invocation) stream

-- the size of one of the request shapes, without the limit
unfoldable pub shape_chars : ModelProfile → Invocation → (stream : Bool) → Result ℕ
unfolding lmstudio_chat_body
shape_chars profile invocation stream = do
  body ← lmstudio_chat_body profile (unbounded invocation) stream
  chat_body_chars body

-- `prompt_chars`
unfoldable pub lmstudio_prompt_chars : ModelProfile → Invocation → Result ℕ
unfolding shape_chars
lmstudio_prompt_chars profile invocation = do
  whole ← shape_chars profile invocation false
  streamed ← shape_chars profile invocation true
  ok (at_least whole streamed)

-- `if failure is not None: raise failure`
abbrev pub unless_failed : Option Failure → Result (Unit {0})
unless_failed none = ok tt
unless_failed (some e) = err e

module _ (loads : Text → Option Json) (number : Text → Option ℤ) (messages : Messages) where
  -- One frame of a stream.
  unfoldable pub accept_frame : ChatStreamDecoder → Fields → Result Accepted
  accept_frame d payload = do
    unless_failed (lmstudio_response_failure messages payload)
    accept loads number d payload

  -- The frames in their order and how the stream ended, with the texts that were emitted.
  unfoldable pub consume :
      ChatStreamDecoder
      → (emitted : List Text) → List Fields
      → Option Failure
      → Result ChatStreamDecoder × List Text
  unfolding accept_frame
  consume d emitted [] none = (ok d, emitted)
  consume d emitted [] (some e) = (err e, emitted)
  consume d emitted (payload ∷ frames) ended = elim (accept_frame d payload) [
    | err e ↦ (err e, emitted)
    | ok accepted ↦ consume accepted.1 (emitted ++ accepted.0) frames ended
  ]

module _ (loads : Text → Option Json) (number : Text → Option ℤ) (messages : Messages)
    (efforts : List ReasoningEffort) (profile : ModelProfile) where
  -- `complete`
  unfoldable pub lmstudio_complete :
      (request : Fields → Result Fields) → Invocation → Result CompletionResult
  unfolding lmstudio_chat_body check_effort checked_result
  lmstudio_complete request invocation = do
    check_effort efforts invocation.reasoning_effort
    body ← lmstudio_chat_body profile invocation false
    payload ← request body
    unless_failed (lmstudio_response_failure messages payload)
    result ← decode_chat loads number payload invocation true
    checked_result profile result

  -- what follows the stream
  unfoldable pub finish_stream :
      Result ChatStreamDecoder × List Text → Result CompletionResult × List Text
  unfolding checked_result
  finish_stream (err e, emitted) = (err e, emitted)
  finish_stream (ok d, emitted) =
      ((do result ← complete loads number d; checked_result profile result), emitted)

  -- What is checked and made before the request.
  unfoldable pub streaming_body : Invocation → Result Fields
  unfolding lmstudio_chat_body check_effort
  streaming_body invocation = do
    check_effort efforts invocation.reasoning_effort
    lmstudio_chat_body profile invocation true

  -- `complete_streaming`; `request` gives the frames of a body and the failure that ends them,
  -- if one does, and the sink takes every text.
  unfoldable pub lmstudio_complete_streaming :
      (request : Fields → List Fields × Option Failure)
      → Invocation
      → Result CompletionResult × List Text
  unfolding streaming_body consume finish_stream
  lmstudio_complete_streaming request invocation = elim (streaming_body invocation) [
    | err e ↦ (err e, [])
    | ok body ↦ finish_stream (
        consume loads number messages (new_decoder invocation) [] (request body).0 (request body).1)
  ]
