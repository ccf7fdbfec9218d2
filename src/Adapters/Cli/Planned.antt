-- ===== src/Adapters/Cli/Planned.antt =====
-- A session's plan against the prompt that a provider's command is given.
use local_agent_runtime.Base.{
  ℕ, ◌≡◌, refl, Bool, false, Option, none, some, ◌++◌, arith, ltb, length,
}
use local_agent_runtime.Failure.{Result, ok, ok-injective}
use local_agent_runtime.Contracts.{Invocation, ContextWindow}
use local_agent_runtime.Context.Plan.{ContextPlan, plan_context}
use local_agent_runtime.Session.{SessionRecord}
use local_agent_runtime.Session.Host.{Adapter}
use local_agent_runtime.Session.Advance.{prompt_measure, plan_request, invocation_of, checked_size}
use local_agent_runtime.Session.Advance.Planned.{planned-size}
use local_agent_runtime.Adapters.Cli.{
  prompt_payload, cli_payload_text, cli_prompt_chars, prompt_instructions, bounded_prompt,
}

-- `prompt_chars` of cli_base.py
abbrev pub command_prompt_chars : Invocation → Result (Option ℕ)
command_prompt_chars invocation = ok (some (cli_prompt_chars invocation))

-- An adapter that measures as the commands' adapters do.
abbrev pub measured_by_command : Adapter → Adapter
measured_by_command adapter = record adapter { prompt_chars = some command_prompt_chars }

-- When a session whose adapter is a provider's command is planned without a failure, whether or
-- not the capacity of its model is known, the command's prompt is made from the invocation of
-- that plan: it is within the input limit that the adapter checks again.
pub bounded_prompt-planned :
    (s : SessionRecord) (adapter : Adapter) (window : ContextWindow) (plan : ContextPlan)
    (native_web : Bool)
    → plan_context (plan_request s (measured_by_command adapter) window) ≡ ok plan
    → plan.failure ≡ none
    → bounded_prompt (invocation_of s plan) native_web
      ≡ ok (prompt_instructions native_web s.tools ++ cli_payload_text (invocation_of s plan))
unfolding bounded_prompt prompt_measure checked_size cli_payload_text prompt_payload
bounded_prompt-planned s adapter window plan native_web h fine =
    let (size, sized, fits) =
      planned-size (plan_request s (measured_by_command adapter) window) plan _ refl h fine in
    let same : cli_prompt_chars (invocation_of s plan) ≡ size = ok-injective sized in
    let short : ltb s.profile.limits.max_input_chars
          (length (cli_payload_text (invocation_of s plan)))
        ≡ false =
      ground arith in
    rw short refl
