-- ===== src/Adapters/LmStudio/Planned.antt =====
-- A session's plan against the bodies that LM Studio may be sent.
use local_agent_runtime.Base.{ℕ, ◌≤◌, ◌≡◌, refl, Bool, true, false, Option, none, some, arith}
use local_agent_runtime.Failure.{Result, ok, err, ◌>>=◌, >>=-eq-ok, ok-injective}
use local_agent_runtime.Contracts.{Invocation, ModelProfile, ContextWindow}
use local_agent_runtime.Context.Plan.{ContextPlan, plan_context}
use local_agent_runtime.Session.{SessionRecord}
use local_agent_runtime.Session.Host.{Adapter}
use local_agent_runtime.Session.Advance.{prompt_measure, plan_request, invocation_of, checked_size}
use local_agent_runtime.Session.Advance.Planned.{planned-size, planned-allocated}
use local_agent_runtime.Adapters.Chat.{chat_body_chars, chat_prompt_chars}
use local_agent_runtime.Adapters.Chat.Tokens.{allowing, chat_body-allowing}
use local_agent_runtime.Adapters.LmStudio.Body.{
  wired, lmstudio_chat_body, shape_chars, lmstudio_prompt_chars,
}

-- `prompt_chars`, as the service calls it
abbrev pub lmstudio_measure : ModelProfile → Invocation → Result (Option ℕ)
lmstudio_measure profile invocation = do ok (some (← lmstudio_prompt_chars profile invocation))

-- An adapter that measures as LM Studio's does.
abbrev pub measured_by_lmstudio : ModelProfile → Adapter → Adapter
measured_by_lmstudio profile adapter = record adapter {
  prompt_chars = some (lmstudio_measure profile);
}

checked_size-some :
    (call : Result ℕ) (size : ℕ)
    → checked_size (call >>= λ n. ok (some n)) ≡ ok size
    → call ≡ ok size
unfolding checked_size
checked_size-some (ok n) size h = h
checked_size-some (err e) size h = cc

shape-planned :
    (profile : ModelProfile) (invocation : Invocation) (stream : Bool) (tokens n : ℕ)
    → shape_chars profile invocation stream ≡ ok n
    → n ≤ invocation.limits.max_input_chars
    → tokens ≤ invocation.limits.max_output_tokens
    → (chars : ℕ) × ((lmstudio_chat_body profile (allowing tokens invocation) stream
          >>= chat_body_chars)
        ≡ ok chars)
      × (chars ≤ n)
unfolding shape_chars lmstudio_chat_body chat_prompt_chars
shape-planned profile invocation stream tokens n h fits le =
    chat_body-allowing profile (wired invocation) stream tokens n h fits le

shapes :
    (profile : ModelProfile) (invocation : Invocation) (n : ℕ) (stream : Bool)
    → lmstudio_prompt_chars profile invocation ≡ ok n
    → (size : ℕ) × (shape_chars profile invocation stream ≡ ok size) × (size ≤ n)
unfolding lmstudio_prompt_chars
shapes profile invocation n false h =
    let (whole, measured, h₁) = >>=-eq-ok (shape_chars profile invocation false) _ h in
    let (streamed, measured', h₂) = >>=-eq-ok (shape_chars profile invocation true) _ h₁ in
    (whole, measured, ground (arith, ok-injective h₂))
shapes profile invocation n true h =
    let (whole, measured, h₁) = >>=-eq-ok (shape_chars profile invocation false) _ h in
    let (streamed, measured', h₂) = >>=-eq-ok (shape_chars profile invocation true) _ h₁ in
    (streamed, measured', ground (arith, ok-injective h₂))

-- When a session on LM Studio is planned without a failure, whether or not the capacity of its
-- model is known, both bodies that may be sent for the invocation of that plan are made and are
-- within the profile's input limit, with the output tokens that the plan allocated.
pub lmstudio_chat_body-planned :
    (s : SessionRecord) (adapter : Adapter) (window : ContextWindow) (plan : ContextPlan)
    → plan_context (plan_request s (measured_by_lmstudio s.profile adapter) window) ≡ ok plan
    → plan.failure ≡ none
    → (stream : Bool)
    → (chars : ℕ) × ((lmstudio_chat_body s.profile (invocation_of s plan) stream
          >>= chat_body_chars)
        ≡ ok chars)
      × (chars ≤ s.profile.limits.max_input_chars)
unfolding prompt_measure
lmstudio_chat_body-planned s adapter window plan h fine stream =
    let r = plan_request s (measured_by_lmstudio s.profile adapter) window in
    let (size, sized, fits) = planned-size r plan _ refl h fine in
    let configured : Invocation = record (invocation_of s plan) { limits = s.profile.limits } in
    let measured = checked_size-some (lmstudio_prompt_chars s.profile configured) size sized in
    let (shape, shaped, smaller) = shapes s.profile configured size stream measured in
    let (chars, made, short) =
      shape-planned s.profile configured stream plan.allocated_output_tokens shape shaped
        (omega (arith, smaller, fits)) (planned-allocated r plan h fine) in
    (chars, made, omega (arith, short, smaller, fits))
