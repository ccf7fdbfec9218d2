-- ===== src/Adapters/Cli/Estimated.antt =====
-- A plan by the estimate of context.py against the limit that a command's prompt is held to.
use local_agent_runtime.Base.{
  ℕ, ◌+◌, ◌≤◌, ◌≡◌, refl, ap, Bool, false, Option, none, some, ◌++◌, arith, ltb, length,
}
use local_agent_runtime.Failure.{ok, >>=-eq-ok, ok-injective}
use local_agent_runtime.Json.{Fields}
use local_agent_runtime.Json.Dumps.{compact, spaced, dumps, dumps_finite}
use local_agent_runtime.Contracts.{Invocation, ContextWindow}
use local_agent_runtime.Context.Plan.{ContextPlan, plan_context}
use local_agent_runtime.Session.{SessionRecord}
use local_agent_runtime.Session.Host.{Adapter}
use local_agent_runtime.Session.Advance.{prompt_measure, plan_request, invocation_of}
use local_agent_runtime.Session.Advance.Planned.{planned-estimate}
use local_agent_runtime.Context.Estimate.Prompt.{
  schema_or_null, cli_payload, chat_messages, chat_payload, estimate_prompt_chars,
}
use local_agent_runtime.Adapters.Cli.{
  prompt_payload, cli_payload_text, cli_prompt_chars, prompt_instructions, bounded_prompt,
  schema_value,
}

same_schema : (schema : Option Fields) → schema_or_null schema ≡ schema_value schema
unfolding schema_value
same_schema none = refl
same_schema (some schema) = refl

same_payload :
    (invocation : Invocation)
    → cli_payload invocation.messages invocation.tools invocation.output_schema
      ≡ prompt_payload invocation
unfolding cli_payload prompt_payload
same_payload invocation = rw (same_schema invocation.output_schema) refl

estimate-covers :
    (invocation : Invocation) (n : ℕ)
    → estimate_prompt_chars invocation.messages invocation.tools invocation.output_schema ≡ ok n
    → cli_prompt_chars invocation + 512 ≤ n
unfolding estimate_prompt_chars cli_payload_text
estimate-covers invocation n h =
    let (chat, listed, h₁) = >>=-eq-ok (chat_messages invocation.messages) _ h in
    let (shown, measured, h₂) =
      >>=-eq-ok (dumps_finite spaced (chat_payload chat invocation.tools invocation.output_schema))
        _ h₁ in
    let total = ok-injective h₂ in
    let same = ap (λ p. length (dumps compact p)) (same_payload invocation) in
    ground (arith, total, same)

unmeasured :
    (s : SessionRecord) (adapter : Adapter)
    → adapter.prompt_chars ≡ none
    → prompt_measure s adapter ≡ none
unfolding prompt_measure
unmeasured s adapter unsized = rw unsized refl

-- When a session whose adapter does not measure prompts is planned without a failure, by the
-- estimate of context.py and whether or not the capacity of its model is known, a command that is
-- given the invocation of that plan has its prompt made: the adapter's own check of the payload
-- against the input limit does not refuse it.
pub bounded_prompt-estimated :
    (s : SessionRecord) (adapter : Adapter) (window : ContextWindow) (plan : ContextPlan)
    (native_web : Bool)
    → adapter.prompt_chars ≡ none
    → plan_context (plan_request s adapter window) ≡ ok plan
    → plan.failure ≡ none
    → bounded_prompt (invocation_of s plan) native_web
      ≡ ok (prompt_instructions native_web s.tools ++ cli_payload_text (invocation_of s plan))
unfolding bounded_prompt
bounded_prompt-estimated s adapter window plan native_web unsized h fine =
    let (size, sized, fits) =
      planned-estimate (plan_request s adapter window) plan (unmeasured s adapter unsized) h fine in
    let covered = estimate-covers (invocation_of s plan) size sized in
    let short : ltb s.profile.limits.max_input_chars
          (length (cli_payload_text (invocation_of s plan)))
        ≡ false =
      ground arith in
    rw short refl
