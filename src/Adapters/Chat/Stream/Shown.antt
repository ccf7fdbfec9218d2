-- ===== src/Adapters/Chat/Stream/Shown.antt =====
-- What a decoder has shown is the text of its result.
use mathlib.Core.Path.{subst}
use local_agent_runtime.Base.{
  ℕ, ◌+◌, ◌≤◌, String, Text, ◌≡◌, refl, ap, sym, ◌∙◌, false, not, ◌||◌, Option, List, [], ◌∷◌, ◌++◌,
  append_assoc, append-nil, arith, length, length-append, is_empty, is_some, flatten, All,
  All-append, ℤ,
}
use local_agent_runtime.Failure.{ok, ◌>>=◌, ◌>>◌, >>=-eq-ok, ok-injective, raise_if}
use local_agent_runtime.Json.{Json, Fields, str}
use local_agent_runtime.Json.Read.{need, fields_of, list_of, get_or_null}
use local_agent_runtime.Contracts.{Invocation, CompletionResult}
use local_agent_runtime.Adapters.Transport.{safe_counts, response_identity}
use local_agent_runtime.Adapters.Chat.Decode.{invalid_output, chosen_message, message_content}
use local_agent_runtime.Adapters.Chat.Decode.Checked.{decode_chat-text}
use local_agent_runtime.Adapters.Chat.Stream.{
  ChatStreamDecoder, Accepted, new_decoder, new_text, shown_text, add_text, same_model,
  update_fields, finish_choice, index_is_zero, accept_choice, accept_choices, accept, accept_all,
  complete_payload, complete, optional_text, refusal_field,
}

flatten-append : (xs ys : List Text) → flatten (xs ++ ys) ≡ flatten xs ++ flatten ys
flatten-append [] ys = refl
flatten-append (x ∷ xs) ys =
    rw (flatten-append xs ys, append_assoc x (flatten xs) (flatten ys)) refl

flatten-shown_text : (text : Text) → flatten (shown_text text) ≡ text
flatten-shown_text [] = refl
flatten-shown_text (c ∷ text) = append-nil (c ∷ text)

-- From `d`, texts were shown and the decoder became `later`.
record Grows (d : ChatStreamDecoder) (shown : List Text) (later : ChatStreamDecoder) : Type 0 where
  for_invocation : later.invocation ≡ d.invocation
  parts : flatten later.text_parts ≡ flatten d.text_parts ++ flatten shown
  count : later.text_chars ≡ d.text_chars + length (flatten shown)
  bounded :
      d.text_chars ≤ d.invocation.limits.max_output_chars
      → later.text_chars ≤ d.invocation.limits.max_output_chars
  nonempty : All (λ text. is_empty text ≡ false) shown

Grows-refl : (d : ChatStreamDecoder) → Grows d [] d
Grows-refl d = record {
  for_invocation = refl;
  parts = sym (append-nil (flatten d.text_parts));
  count = omega arith;
  bounded = λ h. h;
  nonempty = tt;
}

Grows-trans :
    (d e f : ChatStreamDecoder) (first rest : List Text)
    → Grows d first e
    → Grows e rest f
    → Grows d (first ++ rest) f
Grows-trans d e f first rest g h = record {
  for_invocation = h.for_invocation ∙ g.for_invocation;
  parts =
      h.parts
      ∙ ap (λ t. t ++ flatten rest) g.parts
      ∙ append_assoc (flatten d.text_parts) (flatten first) (flatten rest)
      ∙ ap (λ t. flatten d.text_parts ++ t) (sym (flatten-append first rest));
  count = ground (
    arith,
    g.count,
    h.count,
    ap length (flatten-append first rest),
    length-append (flatten first) (flatten rest),
  );
  bounded = λ le.
      subst (λ i. f.text_chars ≤ i.limits.max_output_chars) g.for_invocation
        (h.bounded (
          subst (λ i. e.text_chars ≤ i.limits.max_output_chars) (sym g.for_invocation)
            (g.bounded le)));
  nonempty = All-append (λ text. is_empty text ≡ false) first rest g.nonempty h.nonempty;
}

new_text-fits :
    (shown bound : ℕ) (content : Json) (text : Text)
    → new_text shown bound content ≡ ok text
    → (shown ≤ bound → shown + length text ≤ bound)
unfolding new_text
new_text-fits shown bound content text h le = grind arith

shown_text-nonempty : (text : Text) → All (λ t. is_empty t ≡ false) (shown_text text)
shown_text-nonempty [] = tt
shown_text-nonempty (c ∷ text) = (refl, tt)

-- The fields of a decoder that text does not depend on.
add_text-Grows :
    (d later : ChatStreamDecoder) (content : Json) (text : Text)
    → new_text d.text_chars d.invocation.limits.max_output_chars content ≡ ok text
    → later.invocation ≡ d.invocation
    → later.text_parts ≡ (add_text text d).text_parts
    → later.text_chars ≡ (add_text text d).text_chars
    → Grows d (shown_text text) later
unfolding add_text
add_text-Grows d later content text h same parts chars = record {
  for_invocation = same;
  parts = ap flatten parts ∙ flatten-append d.text_parts (shown_text text);
  count = chars ∙ ap (λ t. d.text_chars + length t) (sym (flatten-shown_text text));
  bounded = λ le. rw chars (new_text-fits _ _ content text h le);
  nonempty = shown_text-nonempty text;
}

finish_choice-Grows :
    (d : ChatStreamDecoder) (content : Json) (text : Text) (choice delta : Fields)
    (result : Accepted)
    → new_text d.text_chars d.invocation.limits.max_output_chars content ≡ ok text
    → finish_choice d text choice delta ≡ ok result
    → Grows d result.0 result.1
unfolding finish_choice add_text
finish_choice-Grows d content text choice delta result h done =
    let same : result.0 ≡ shown_text text = ground arith in
    rw same (add_text-Grows d result.1 content text h (ground arith) (ground arith) (ground arith))

accept_choice-Grows :
    (d : ChatStreamDecoder) (value : Json) (result : Accepted)
    → accept_choice d value ≡ ok result
    → Grows d result.0 result.1
unfolding accept_choice
accept_choice-Grows d value result h =
    let read = λ (delta : Fields).
      new_text d.text_chars d.invocation.limits.max_output_chars (get_or_null "content" delta) in
    let (choice, chosen, h₁) =
      >>=-eq-ok (need invalid_output (fields_of value))
        (λ choice.
          raise_if (not (index_is_zero choice)) invalid_output
          >> (need invalid_output (fields_of (get_or_null "delta" choice)) >>= λ delta.
              read delta >>= λ text. finish_choice d text choice delta))
        h in
    let (passed, zeroth, h₂) =
      >>=-eq-ok (raise_if (not (index_is_zero choice)) invalid_output)
        (λ _. need invalid_output (fields_of (get_or_null "delta" choice)) >>= λ delta.
          read delta >>= λ text. finish_choice d text choice delta)
        h₁ in
    let (delta, held, h₃) =
      >>=-eq-ok (need invalid_output (fields_of (get_or_null "delta" choice)))
        (λ delta. read delta >>= λ text. finish_choice d text choice delta) h₂ in
    let (text, added, h₄) = >>=-eq-ok (read delta) (λ text. finish_choice d text choice delta) h₃ in
    finish_choice-Grows d (get_or_null "content" delta) text choice delta result added h₄

accept_choices-Grows :
    (d : ChatStreamDecoder) (choices : List Json) (result : Accepted)
    → accept_choices d choices ≡ ok result
    → Grows d result.0 result.1
unfolding accept_choices
accept_choices-Grows d [] result h = subst (λ r. Grows d r.0 r.1) (ok-injective h) (Grows-refl d)
accept_choices-Grows d (choice ∷ rest) result h =
    let (passed, one, h₁) =
      >>=-eq-ok (raise_if (not (is_empty rest) || is_some d.finish_reason) invalid_output)
        (λ _. accept_choice d choice) h in
    accept_choice-Grows d choice result h₁

chosen_message-complete_payload :
    (d : ChatStreamDecoder) (message : Fields)
    → chosen_message (complete_payload d) ≡ ok message
    → get_or_null "content" message ≡ str (flatten d.text_parts)
unfolding complete_payload chosen_message optional_text refusal_field
chosen_message-complete_payload d message h = ground arith

message_content-str :
    (bound : ℕ) (text answer : Text) → message_content bound (str text) ≡ ok answer → answer ≡ text
unfolding message_content
message_content-str bound [] answer h = ground arith
message_content-str bound (c ∷ text) answer h = ground arith

module _ (loads : Text → Option Json) (number : Text → Option ℤ) where
  accept-Grows :
      (d : ChatStreamDecoder) (payload : Fields) (result : Accepted)
      → accept loads number d payload ≡ ok result
      → Grows d result.0 result.1
  unfolding accept
  accept-Grows d payload result h =
      let step = λ (model : Option String) (counts : Fields). record d {
        model = model;
        usage = update_fields d.usage counts;
      } in
      let (named, read, h₁) =
        >>=-eq-ok (response_identity (get_or_null "model" payload))
          (λ named. same_model d.model named >>= λ model.
            safe_counts number (get_or_null "usage" payload) >>= λ counts.
            need invalid_output (list_of (get_or_null "choices" payload)) >>= λ choices.
            accept_choices (step model counts) choices)
          h in
      let (model, agreed, h₂) =
        >>=-eq-ok (same_model d.model named)
          (λ model. safe_counts number (get_or_null "usage" payload) >>= λ counts.
            need invalid_output (list_of (get_or_null "choices" payload)) >>= λ choices.
            accept_choices (step model counts) choices)
          h₁ in
      let (counts, counted, h₃) =
        >>=-eq-ok (safe_counts number (get_or_null "usage" payload))
          (λ counts. need invalid_output (list_of (get_or_null "choices" payload)) >>= λ choices.
            accept_choices (step model counts) choices)
          h₂ in
      let (choices, listed, h₄) =
        >>=-eq-ok (need invalid_output (list_of (get_or_null "choices" payload)))
          (λ choices. accept_choices (step model counts) choices) h₃ in
      let grown = accept_choices-Grows (step model counts) choices result h₄ in
      record {
        for_invocation = grown.for_invocation;
        parts = grown.parts;
        count = grown.count;
        bounded = grown.bounded;
        nonempty = grown.nonempty;
      }

  accept_all-Grows :
      (d : ChatStreamDecoder) (payloads : List Fields) (result : Accepted)
      → accept_all loads number d payloads ≡ ok result
      → Grows d result.0 result.1
  unfolding accept_all
  accept_all-Grows d [] result h = subst (λ r. Grows d r.0 r.1) (ok-injective h) (Grows-refl d)
  accept_all-Grows d (payload ∷ payloads) result h =
      let (first, one, h₁) =
        >>=-eq-ok (accept loads number d payload)
          (λ first.
            accept_all loads number first.1 payloads >>= λ rest. ok (first.0 ++ rest.0, rest.1))
          h in
      let (rest, others, h₂) =
        >>=-eq-ok (accept_all loads number first.1 payloads)
          (λ rest. ok (first.0 ++ rest.0, rest.1)) h₁ in
      subst (λ r. Grows d r.0 r.1) (ok-injective h₂)
        (Grows-trans d first.1 rest.1 first.0 rest.0 (accept-Grows d payload first one)
          (accept_all-Grows first.1 payloads rest others))

  complete-text :
      (d : ChatStreamDecoder) (result : CompletionResult)
      → complete loads number d ≡ ok result
      → result.text ≡ flatten d.text_parts
  unfolding complete
  complete-text d result h =
      let (message, chosen, held) =
        decode_chat-text loads number (complete_payload d) d.invocation result h in
      message_content-str d.invocation.limits.max_output_chars (flatten d.text_parts) result.text (
        subst (λ c. message_content d.invocation.limits.max_output_chars c ≡ ok result.text)
          (chosen_message-complete_payload d message chosen) held)

  -- Every text that a stream's chunks show is nonempty, and together they are within the
  -- invocation's output limit, counted by the decoder; and the completed result, if there is
  -- one, says exactly what was shown.
  pub stream-shows-result :
      (invocation : Invocation) (payloads : List Fields) (shown : List Text) (d : ChatStreamDecoder)
      → accept_all loads number (new_decoder invocation) payloads ≡ ok (shown, d)
      → All (λ text. is_empty text ≡ false) shown
        × (d.text_chars ≡ length (flatten shown))
        × (length (flatten shown) ≤ invocation.limits.max_output_chars)
        × ((result : CompletionResult)
            → complete loads number d ≡ ok result
            → result.text ≡ flatten shown)
  stream-shows-result invocation payloads shown d h =
      let grown = accept_all-Grows (new_decoder invocation) payloads (shown, d) h in
      let chars : d.text_chars ≡ length (flatten shown) = omega (arith, grown.count) in
      (
        grown.nonempty,
        chars,
        subst (λ n. n ≤ invocation.limits.max_output_chars) chars (grown.bounded (omega arith)),
        λ result done. complete-text d result done ∙ grown.parts,
      )
