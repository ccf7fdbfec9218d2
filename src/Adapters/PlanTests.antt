-- ===== src/Adapters/PlanTests.antt =====
-- A session of one message, planned for a command and for LM Studio.
use local_agent_runtime.Base.{
  ◌⊎◌, inl, inr, Bool-cases, ◌==◌, ==_iff, arith, ℕ, ◌≤◌, ◌≡◌, refl, true, false, none, some, [],
  ◌∷◌, codes, ◌++◌,
}
use local_agent_runtime.Failure.{ok, err, crash, ◌>>=◌}
use local_agent_runtime.Contracts.{
  local, ProviderConnection, ModelProfile, default_limits, running, plain_message, unknown_window,
}
use local_agent_runtime.Session.{SessionRecord, task_active}
use local_agent_runtime.Session.Host.{Adapter}
use local_agent_runtime.Session.Advance.{prompt_measure, plan_request, invocation_of, checked_size}
use local_agent_runtime.Context.Plan.Total.{plan_context-Returns}
use local_agent_runtime.Context.Plan.{
  Request, window_of, mandatory_turns, turn_count, ContextPlan, plan_context, first_fit, estimate,
  fits_chars, window_chars,
}
use local_agent_runtime.Context.Turns.{turns_of, suffix}
use local_agent_runtime.Context.Estimate.{
  estimate_tools_tokens, estimate_message_tokens, estimate_text_tokens,
}
use local_agent_runtime.Json.Dumps.{dumps_finite}
use local_agent_runtime.Adapters.Chat.{chat_body, chat_body_chars, chat_prompt_chars}
use local_agent_runtime.Adapters.Cli.{
  cli_payload_text, prompt_instructions, bounded_prompt, prompt_payload,
}
use local_agent_runtime.Context.Estimate.Prompt.{estimate_prompt_chars}
use local_agent_runtime.Adapters.Cli.Estimated.{bounded_prompt-estimated}
use local_agent_runtime.Adapters.Cli.Planned.{measured_by_command, bounded_prompt-planned}
use local_agent_runtime.Adapters.LmStudio.Body.{
  lmstudio_chat_body, shape_chars, lmstudio_prompt_chars,
}
use local_agent_runtime.Adapters.LmStudio.Planned.{measured_by_lmstudio, lmstudio_chat_body-planned}

abbrev connection : ProviderConnection
connection = record {
  id = "lmstudio";
  driver = "lmstudio";
  processing = local;
  command = none;
  endpoint = some "http://127.0.0.1:1234";
  credential_ref = none;
  upstream = none;
}

abbrev profile : ModelProfile
profile = record {
  id = "small";
  provider_id = "lmstudio";
  model = "qwen";
  allow_external_processing = false;
  allow_private_processing = true;
  limits = default_limits;
  qualified_tasks = [];
  reasoning_efforts = [];
  default_reasoning_effort = none;
  model_options = [];
  catalog_model_tasks = [];
}

abbrev session : SessionRecord
session = record {
  id = "s1";
  profile = profile;
  connection = connection;
  tools = [];
  messages = plain_message "user" (codes "hello") ∷ [];
  private_processing = false;
  model_option_id = none;
  task_code = none;
  output_schema = none;
  created_at = 1;
  updated_at = 1;
  finished_at = none;
  output_chars = 0;
  status = running;
  events = [];
  pending_tools = [];
  tool_rounds = 0;
  provider_calls = 1;
  final_text = none;
  failure = none;
  effective_model = none;
  effective_upstream = none;
  requested_reasoning_effort = none;
  effective_reasoning_effort = none;
  usage = [];
  validation = "pending";
  context = none;
  observed_prompt = none;
  task = task_active;
}

abbrev adapter : Adapter
adapter = record {
  reasoning_efforts = [];
  token_streaming = false;
  context_window = none;
  prompt_chars = none;
  complete = λ invocation. err (crash "RuntimeError");
  complete_streaming = none;
}

-- The plan of both.
abbrev plan : ContextPlan
plan = record {
  messages = plain_message "user" (codes "hello") ∷ [];
  indices = 0 ∷ [];
  capacity_tokens = none;
  capacity_source = "unknown";
  budget_tokens = none;
  estimated_prompt_tokens = 650;
  basis = "estimate";
  dropped_messages = 0;
  dropped_turns = 0;
  configured_output_tokens = 4096;
  allocated_output_tokens = 4096;
  failure = none;
  failure_code = "input_limit_exceeded";
}

command-planned :
    plan_context (plan_request session (measured_by_command adapter) unknown_window) ≡ ok plan
unfolding plan_context first_fit turns_of fits_chars window_chars prompt_measure checked_size
    prompt_payload cli_payload_text dumps_finite estimate suffix estimate_tools_tokens
    estimate_message_tokens estimate_text_tokens
command-planned = refl

bounded_prompt-planned_example :
    bounded_prompt (invocation_of session plan) true
    ≡ ok (prompt_instructions true [] ++ cli_payload_text (invocation_of session plan))
bounded_prompt-planned_example =
    bounded_prompt-planned session adapter unknown_window plan true command-planned refl

lmstudio-planned :
    plan_context (plan_request session (measured_by_lmstudio profile adapter) unknown_window)
    ≡ ok plan
unfolding plan_context first_fit turns_of fits_chars window_chars prompt_measure checked_size
    lmstudio_prompt_chars shape_chars chat_prompt_chars chat_body dumps_finite chat_body_chars
    estimate suffix estimate_tools_tokens estimate_message_tokens estimate_text_tokens
lmstudio-planned = refl

lmstudio_chat_body-planned_example :
    (chars : ℕ) × ((lmstudio_chat_body profile (invocation_of session plan) true
        >>= chat_body_chars)
      ≡ ok chars)
    × (chars ≤ 140000)
lmstudio_chat_body-planned_example =
    lmstudio_chat_body-planned session adapter unknown_window plan lmstudio-planned refl true

-- The adapter does not measure: the estimate decides.
estimate-planned : plan_context (plan_request session adapter unknown_window) ≡ ok plan
unfolding plan_context first_fit turns_of fits_chars window_chars prompt_measure dumps_finite
    estimate suffix estimate_tools_tokens estimate_message_tokens estimate_text_tokens
    estimate_prompt_chars
estimate-planned = refl

bounded_prompt-estimated_example :
    bounded_prompt (invocation_of session plan) false
    ≡ ok (prompt_instructions false [] ++ cli_payload_text (invocation_of session plan))
bounded_prompt-estimated_example =
    bounded_prompt-estimated session adapter unknown_window plan false refl estimate-planned refl

-- A session of two turns, both of whose windows LM Studio's adapter measures.
abbrev longer : SessionRecord
longer = record session {
  messages =
      plain_message "user" (codes "hello")
      ∷ plain_message "assistant" (codes "hi")
      ∷ plain_message "user" (codes "again")
      ∷ [];
}

abbrev two_turns : Request
two_turns = plan_request longer (measured_by_lmstudio profile adapter) unknown_window

one_or_two : (kept : ℕ) → 1 ≤ kept → kept ≤ 2 → (kept ≡ 1) ⊎ (kept ≡ 2)
one_or_two kept low high = elim (Bool-cases (kept == 1)) [
  | inl one ↦ inl ((==_iff kept 1).0 one)
  | inr more ↦ inr (ground arith)
]

last-measured : (chars : ℕ) × (window_chars two_turns (window_of two_turns 1) ≡ ok chars)
unfolding turns_of window_chars suffix prompt_measure checked_size lmstudio_prompt_chars shape_chars
    chat_prompt_chars chat_body dumps_finite chat_body_chars
last-measured = (_, refl)

both-measured : (chars : ℕ) × (window_chars two_turns (window_of two_turns 2) ≡ ok chars)
unfolding turns_of window_chars suffix prompt_measure checked_size lmstudio_prompt_chars shape_chars
    chat_prompt_chars chat_body dumps_finite chat_body_chars
both-measured = (_, refl)

two_turns-measured :
    (kept : ℕ)
    → mandatory_turns two_turns ≤ kept
    → kept ≤ turn_count two_turns
    → (chars : ℕ) × (window_chars two_turns (window_of two_turns kept) ≡ ok chars)
unfolding turns_of
two_turns-measured kept low high = elim (one_or_two kept low high) [
  | inl one ↦ rw one last-measured
  | inr two ↦ rw two both-measured
]

plan_context-Returns_example : (plan : ContextPlan) × (plan_context two_turns ≡ ok plan)
plan_context-Returns_example = plan_context-Returns two_turns two_turns-measured
