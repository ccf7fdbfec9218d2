-- ===== src/Adapters/LmStudio/Answers.antt =====
-- What LM Studio's requests and completions keep to.
use local_agent_runtime.Base.{
  ℕ, ◌≤◌, String, Text, ◌≡◌, refl, ap, sym, ◌∙◌, Bool, true, false, Option, none, some, List, [],
  ◌∷◌, ◌++◌, append_assoc, append-nil, arith, Bool-cases, inl, inr, leb, length, flatten, ℤ,
  Option-cases, str_eq, eq_iff,
}
use local_agent_runtime.Failure.{
  Failure, Result, ok, err, ◌>>=◌, >>=-eq-ok, ok-injective, Result-cases,
}
use local_agent_runtime.Json.{Json, Fields}
use local_agent_runtime.Contracts.{ReasoningEffort, Invocation, ModelProfile, CompletionResult}
use local_agent_runtime.Adapters.Chat.{chat_body_chars, chat_prompt_chars}
use local_agent_runtime.Adapters.Chat.Size.{chat_body-chat_prompt_chars}
use local_agent_runtime.Adapters.Chat.Stream.{ChatStreamDecoder, new_decoder, accept_all, complete}
use local_agent_runtime.Adapters.Chat.Stream.Shown.{stream-shows-result}
use local_agent_runtime.Adapters.LmStudio.{Messages, lmstudio_response_failure, checked_result}
use local_agent_runtime.Adapters.LmStudio.Body.{
  wired, lmstudio_chat_body, shape_chars, lmstudio_prompt_chars, unless_failed, accept_frame,
  consume, finish_stream, streaming_body, lmstudio_complete_streaming,
}

shape-size :
    (profile : ModelProfile) (invocation : Invocation) (stream : Bool) (n : ℕ)
    → shape_chars profile invocation stream ≡ ok n
    → n ≤ invocation.limits.max_input_chars
    → (lmstudio_chat_body profile invocation stream >>= chat_body_chars) ≡ ok n
unfolding shape_chars lmstudio_chat_body chat_prompt_chars
shape-size profile invocation stream n h fits =
    let within : leb n invocation.limits.max_input_chars ≡ true = ground arith in
    let made = chat_body-chat_prompt_chars profile (wired invocation) stream n h in
    made ∙ rw within refl

-- When the size that planning measures for LM Studio is within the input limit, both bodies that
-- it may be sent, for a whole answer and for a stream, are made and are at most that long.
pub lmstudio_prompt_chars-covers :
    (profile : ModelProfile) (invocation : Invocation) (n : ℕ)
    → lmstudio_prompt_chars profile invocation ≡ ok n
    → n ≤ invocation.limits.max_input_chars
    → (stream : Bool)
    → (chars : ℕ) × ((lmstudio_chat_body profile invocation stream >>= chat_body_chars) ≡ ok chars)
      × (chars ≤ n)
unfolding lmstudio_prompt_chars
lmstudio_prompt_chars-covers profile invocation n h fits stream =
    let (whole, measured, h₁) = >>=-eq-ok (shape_chars profile invocation false) _ h in
    let (streamed, measured', h₂) = >>=-eq-ok (shape_chars profile invocation true) _ h₁ in
    let total = ok-injective h₂ in
    elim stream
      as (λ stream.
        (chars : ℕ) × ((lmstudio_chat_body profile invocation stream >>= chat_body_chars)
          ≡ ok chars)
        × (chars ≤ n)) [
          | false ↦
              let le : whole ≤ n = ground (arith, total) in
              (
                whole,
                shape-size profile invocation false whole measured (omega (arith, le, fits)),
                le,
              )
          | true ↦
              let le : streamed ≤ n = ground (arith, total) in
              (
                streamed,
                shape-size profile invocation true streamed measured' (omega (arith, le, fits)),
                le,
              )
        ]

module _ (loads : Text → Option Json) (number : Text → Option ℤ) (messages : Messages) where
  consume-accept_all :
      (d later : ChatStreamDecoder) (emitted shown : List Text) (frames : List Fields)
      (ended : Option Failure)
      → consume loads number messages d emitted frames ended ≡ (ok later, shown)
      → (texts : List Text) × (accept_all loads number d frames ≡ ok (texts, later))
        × (shown ≡ emitted ++ texts)
  unfolding consume accept_all
  consume-accept_all d later emitted shown [] none h =
      let same : d ≡ later = cc in
      let all : emitted ≡ shown = cc in
      ([], ap (λ e. ok ([], e)) same, sym all ∙ sym (append-nil emitted))
  consume-accept_all d later emitted shown [] (some e) h = cc
  consume-accept_all d later emitted shown (payload ∷ frames) ended h =
      elim (Result-cases (accept_frame loads number messages d payload)) [
        | inl (e, failed) ↦ cc (rw (failed, consume) at h)
        | inr (accepted, passed) ↦
            let (checked, was_fine, one) =
              >>=-eq-ok (unless_failed (lmstudio_response_failure messages payload)) _ passed in
            let (texts, rest, more) =
              consume-accept_all accepted.1 later (emitted ++ accepted.0) shown frames ended
                (rw (passed, consume) at h) in
            (accepted.0 ++ texts, rw (one, rest) refl, more ∙ append_assoc emitted accepted.0 texts)
      ]

checked_result-model :
    (profile : ModelProfile) (made result : CompletionResult)
    → checked_result profile made ≡ ok result
    → (made ≡ result)
      × ((model : String) → result.effective_model ≡ some model → model ≡ profile.model)
unfolding checked_result
checked_result-model profile made result h = elim (Option-cases made.effective_model) [
  | inl none_named ↦
      let same : made ≡ result = ok-injective (rw (none_named, checked_result) at h) in
      (same, λ model named. cc (ap (λ (r : CompletionResult). r.effective_model) same))
  | inr (named_model, named) ↦ elim (Bool-cases (str_eq named_model profile.model)) [
    | inl right ↦
        let same : made ≡ result = ok-injective (rw (named, right, checked_result) at h) in
        (
          same,
          λ model e.
              let m : model ≡ named_model =
                cc (e, ap (λ (r : CompletionResult). r.effective_model) same, named) in
              m ∙ (eq_iff named_model profile.model).0 right,
        )
    | inr wrong ↦ cc (rw (named, wrong, checked_result) at h)
  ]
]

module _ (loads : Text → Option Json) (number : Text → Option ℤ) (messages : Messages)
    (efforts : List ReasoningEffort) (profile : ModelProfile) where
  finish_stream-ok :
      (out : Result ChatStreamDecoder × List Text) (result : CompletionResult) (emitted : List Text)
      → finish_stream loads number messages efforts profile out ≡ (ok result, emitted)
      → (d : ChatStreamDecoder) × (out ≡ (ok d, emitted))
        × (complete loads number d ≡ ok result)
        × ((model : String) → result.effective_model ≡ some model → model ≡ profile.model)
  unfolding finish_stream
  finish_stream-ok (err e, shown) result emitted h = cc
  finish_stream-ok (ok d, shown) result emitted h =
      let (made, completed, checked) =
        >>=-eq-ok (complete loads number d) _
          (ap (λ (p : Result CompletionResult × List Text). p.0) h) in
      let (kept, model) = checked_result-model profile made result checked in
      (
        d,
        ap (λ e. (ok d, e)) (ap (λ (p : Result CompletionResult × List Text). p.1) h),
        completed ∙ ap ok kept,
        model,
      )

  -- A streamed completion that returns has emitted exactly its result's text, in pieces that are
  -- within the output limit together, and its result names no other model than the profile's.
  pub lmstudio_complete_streaming-shows :
      (request : Fields → List Fields × Option Failure) (invocation : Invocation)
      (result : CompletionResult) (emitted : List Text)
      → lmstudio_complete_streaming loads number messages efforts profile request invocation
        ≡ (ok result, emitted)
      → (result.text ≡ flatten emitted)
        × (length result.text ≤ invocation.limits.max_output_chars)
        × ((model : String) → result.effective_model ≡ some model → model ≡ profile.model)
  unfolding lmstudio_complete_streaming
  lmstudio_complete_streaming-shows request invocation result emitted h =
      elim (Result-cases (streaming_body loads number messages efforts profile invocation)) [
        | inl (e, failed) ↦ cc (rw (failed, lmstudio_complete_streaming) at h)
        | inr (body, made) ↦
            let (d, out, completed, model) =
              finish_stream-ok
                (consume loads number messages (new_decoder invocation) [] (request body).0
                  (request body).1)
                result emitted (rw (made, lmstudio_complete_streaming) at h) in
            let (texts, accepted, all) =
              consume-accept_all loads number messages (new_decoder invocation) d [] emitted
                (request body).0 (request body).1 out in
            let (nonempty, count, bounded, shows) =
              stream-shows-result loads number invocation (request body).0 texts d accepted in
            let same : result.text ≡ flatten texts = shows result completed in
            (same ∙ ap flatten (sym all), rw same bounded, model)
      ]
