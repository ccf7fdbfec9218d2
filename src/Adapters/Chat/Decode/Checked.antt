-- ===== src/Adapters/Chat/Decode/Checked.antt =====
-- What a completion that `decode_chat` returns is like.
use mathlib.Core.Path.{subst}
use local_agent_runtime.Base.{
  ℕ, suc, ◌≤◌, Text, string_of, ◌≡◌, refl, ap, sym, ◌∙◌, Bool, false, ◌&&◌, Option, List, [], ◌∷◌,
  arith, Bool-cases, inl, inr, ltb, length, is_empty, is_blank, len, All, ℤ,
}
use local_agent_runtime.Failure.{Result, ok, ◌>>=◌, ◌>>◌, >>=-eq-ok, ok-injective, raise_if}
use local_agent_runtime.Json.{Json, Fields}
use local_agent_runtime.Json.Read.{need, get, get_or_null}
use local_agent_runtime.Contracts.{Invocation, ToolRequest, CompletionResult}
use local_agent_runtime.Adapters.Chat.Decode.{
  message_content, decode_call, decode_calls, message_calls, chosen_message, calls_of,
  invalid_output, reasoning_channel_answer, final_content, decoded_completion, decode_chat,
}

pub len-string_of : (s : Text) → len (string_of s) ≡ length s
len-string_of [] = refl
len-string_of (c ∷ s) = ap suc (len-string_of s)

abbrev pub IsNamed : ToolRequest → Type 0
IsNamed request = (1 ≤ len request.id) × (len request.id ≤ 128)

-- What the code promises of the result of an invocation.
pub record IsDelivered (invocation : Invocation) (result : CompletionResult) : Type 0 where
  pub has_answer : (is_blank result.text && is_empty result.tool_requests) ≡ false
  pub text_fits : length result.text ≤ invocation.limits.max_output_chars
  pub calls_fit : length result.tool_requests ≤ 128
  pub ids_fit : All IsNamed result.tool_requests

message_content-fits :
    (bound : ℕ) (content : Json) (text : Text)
    → message_content bound content ≡ ok text
    → length text ≤ bound
unfolding message_content
message_content-fits bound content text h = grind arith

module _ (loads : Text → Option Json) (number : Text → Option ℤ) where
  decode_call-id :
      (value : Json) (request : ToolRequest)
      → decode_call loads number value ≡ ok request
      → IsNamed request
  unfolding decode_call
  decode_call-id value request h = grind (arith, len-string_of)

  decode_calls-fit :
      (calls : List Json) (requests : List ToolRequest)
      → decode_calls loads number calls ≡ ok requests
      → (length requests ≡ length calls) × All IsNamed requests
  unfolding decode_calls
  decode_calls-fit [] requests h =
      subst (λ rs. (length rs ≡ 0) × All IsNamed rs) (ok-injective h) (refl, tt)
  decode_calls-fit (call ∷ calls) requests h =
      let (one, first, h₁) =
        >>=-eq-ok (decode_call loads number call)
          (λ request. decode_calls loads number calls >>= λ more. ok (request ∷ more)) h in
      let (more, others, h₂) =
        >>=-eq-ok (decode_calls loads number calls) (λ more. ok (one ∷ more)) h₁ in
      let (count, named) = decode_calls-fit calls more others in
      subst (λ rs. (length rs ≡ suc (length calls)) × All IsNamed rs) (ok-injective h₂)
        (ap suc count, (decode_call-id call one first, named))

  message_calls-fit :
      (message : Fields) (requests : List ToolRequest)
      → message_calls loads number message ≡ ok requests
      → (length requests ≤ 128) × All IsNamed requests
  unfolding message_calls
  message_calls-fit message requests h =
      let (calls, found, h₁) =
        >>=-eq-ok (need invalid_output (calls_of (get "tool_calls" message)))
          (λ calls.
            raise_if (ltb 128 (length calls)) invalid_output >> decode_calls loads number calls)
          h in
      elim (Bool-cases (ltb 128 (length calls))) [
        | inl over ↦ cc (rw over at h₁)
        | inr fits ↦
            let (count, named) = decode_calls-fit calls requests (rw fits at h₁) in
            (ground (arith, count), named)
      ]

  final_content-fits :
      (structured : Bool) (invocation : Invocation) (message : Fields) (content answer : Text)
      (requests : List ToolRequest)
      → length content ≤ invocation.limits.max_output_chars
      → final_content loads number structured invocation message content requests ≡ ok answer
      → length answer ≤ invocation.limits.max_output_chars
  unfolding final_content reasoning_channel_answer
  final_content-fits structured invocation message content answer requests fits h = grind arith

  decoded_decoded_completion-keeps :
      (payload : Fields) (content : Text) (requests : List ToolRequest) (result : CompletionResult)
      → decoded_completion loads number payload content requests ≡ ok result
      → (result.text ≡ content) × (result.tool_requests ≡ requests)
  unfolding decoded_completion
  decoded_decoded_completion-keeps payload content requests result h = grind arith

  -- the end of `decode_chat`
  finished : Fields → Text → List ToolRequest → Result CompletionResult
  finished payload answer requests =
      raise_if (is_blank answer && is_empty requests) invalid_output
      >> decoded_completion loads number payload answer requests

  finished-IsDelivered :
      (payload : Fields) (invocation : Invocation) (answer : Text) (requests : List ToolRequest)
      (result : CompletionResult)
      → length answer ≤ invocation.limits.max_output_chars
      → length requests ≤ 128
      → All IsNamed requests
      → finished payload answer requests ≡ ok result
      → IsDelivered invocation result
  unfolding finished
  finished-IsDelivered payload invocation answer requests result fits short named h =
      elim (Bool-cases (is_blank answer && is_empty requests)) [
        | inl nothing ↦ cc (rw nothing at h)
        | inr something ↦
            let (same, kept) =
              decoded_decoded_completion-keeps payload answer requests result (rw something at h) in
            record {
              has_answer = rw (same, kept) something;
              text_fits = rw same fits;
              calls_fit = rw kept short;
              ids_fit = rw kept named;
            }
      ]

  -- A completion that is decoded holds text that is not blank or a tool request; its text is
  -- within the output limit of the invocation; and it has at most 128 tool requests, each with
  -- an identifier of 1 to 128 characters.
  pub decode_chat-IsDelivered :
      (payload : Fields) (invocation : Invocation) (structured : Bool) (result : CompletionResult)
      → decode_chat loads number payload invocation structured ≡ ok result
      → IsDelivered invocation result
  unfolding decode_chat finished
  decode_chat-IsDelivered payload invocation structured result h =
      let bound = invocation.limits.max_output_chars in
      let (message, chosen, h₁) =
        >>=-eq-ok (chosen_message payload)
          (λ message. message_content bound (get_or_null "content" message) >>= λ content.
            message_calls loads number message >>= λ requests.
            final_content loads number structured invocation message content requests >>= λ answer.
            finished payload answer requests)
          h in
      let (content, held, h₂) =
        >>=-eq-ok (message_content bound (get_or_null "content" message))
          (λ content. message_calls loads number message >>= λ requests.
            final_content loads number structured invocation message content requests >>= λ answer.
            finished payload answer requests)
          h₁ in
      let (requests, called, h₃) =
        >>=-eq-ok (message_calls loads number message)
          (λ requests.
            final_content loads number structured invocation message content requests >>= λ answer.
            finished payload answer requests)
          h₂ in
      let (answer, answered, h₄) =
        >>=-eq-ok (final_content loads number structured invocation message content requests)
          (λ answer. finished payload answer requests) h₃ in
      let (short, named) = message_calls-fit message requests called in
      let fits = message_content-fits bound (get_or_null "content" message) content held in
      finished-IsDelivered payload invocation answer requests result
        (final_content-fits structured invocation message content answer requests fits answered)
        short named h₄

  finished-text :
      (payload : Fields) (answer : Text) (requests : List ToolRequest) (result : CompletionResult)
      → finished payload answer requests ≡ ok result
      → result.text ≡ answer
  unfolding finished
  finished-text payload answer requests result h =
      elim (Bool-cases (is_blank answer && is_empty requests)) [
        | inl nothing ↦ cc (rw nothing at h)
        | inr something ↦
            (decoded_decoded_completion-keeps payload answer requests result (rw something at h)).0
      ]

  -- Without the reasoning channel, a result's text is the message's content.
  pub decode_chat-text :
      (payload : Fields) (invocation : Invocation) (result : CompletionResult)
      → decode_chat loads number payload invocation false ≡ ok result
      → (message : Fields) × (chosen_message payload ≡ ok message)
        × (message_content invocation.limits.max_output_chars (get_or_null "content" message)
            ≡ ok result.text)
  unfolding decode_chat finished final_content
  decode_chat-text payload invocation result h =
      let bound = invocation.limits.max_output_chars in
      let (message, chosen, h₁) =
        >>=-eq-ok (chosen_message payload)
          (λ message. message_content bound (get_or_null "content" message) >>= λ content.
            message_calls loads number message >>= λ requests. finished payload content requests)
          h in
      let (content, held, h₂) =
        >>=-eq-ok (message_content bound (get_or_null "content" message))
          (λ content.
            message_calls loads number message >>= λ requests. finished payload content requests)
          h₁ in
      let (requests, called, h₃) =
        >>=-eq-ok (message_calls loads number message)
          (λ requests. finished payload content requests) h₂ in
      (message, chosen, held ∙ ap ok (sym (finished-text payload content requests result h₃)))
