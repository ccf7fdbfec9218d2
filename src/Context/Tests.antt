-- ===== src/Context/Tests.antt =====
-- The planner on a transcript of two turns, under pressure in a small context, with room in a
-- larger one, and without a known capacity.
use local_agent_runtime.Base.{
  ℕ, ◌≤◌, ◌<◌, ◌+◌, Text, codes, ◌≡◌, refl, true, none, some, List, [], ◌∷◌, ◌++◌, arith, flatten,
  length, range_from, pos,
}
use local_agent_runtime.Failure.{ok}
use local_agent_runtime.Contracts.{Message, plain_message, default_limits, ContextWindow}
use local_agent_runtime.Context.Estimate.{
  estimate_text_tokens, output_margin, estimate_tools_tokens, estimate_message_tokens, output_floor,
  input_budget,
}
use local_agent_runtime.Context.Estimate.Laws.{
  class_cost, estimate_text_tokens-eq-class_cost, estimate_text_tokens-append,
}
use local_agent_runtime.Context.Turns.{turns_of, suffix}
use local_agent_runtime.Context.Turns.Laws.{turns_of-partition}
use local_agent_runtime.Context.Plan.{
  Request, ContextPlan, plan_context, context_failure_code, turn_count, first_fit, fits_budget,
  estimate, fits_chars, window_chars, smallest, mandatory_turns, choice_of, fits,
}
use local_agent_runtime.Context.Plan.Window.{IsWindow, plan_context-IsWindow}
use local_agent_runtime.Context.Plan.Fitting.{Fits, plan_context-Fits}
use local_agent_runtime.Context.Plan.History.{plan_context-keeps_history}

abbrev transcript : List Message
transcript =
    plain_message "system" (codes "be brief")
    ∷ plain_message "user" (codes "hello")
    ∷ plain_message "assistant" (codes "hi")
    ∷ plain_message "user" (codes "again")
    ∷ []

abbrev request_of : ContextWindow → Request
request_of window = record {
  messages = transcript;
  tools = [];
  output_schema = none;
  limits = default_limits;
  window = window;
  observed = none;
  measure = some λ messages. ok (length messages);
}

abbrev small : Request
small = request_of (record { tokens = some 4900; source = "provider_loaded" })

abbrev roomy : Request
roomy = request_of (record { tokens = some 8192; source = "provider_loaded" })

-- The first turn is dropped, and the output gets what is left.
abbrev small_plan : ContextPlan
small_plan = record {
  messages = plain_message "system" (codes "be brief") ∷ plain_message "user" (codes "again") ∷ [];
  indices = 0 ∷ 3 ∷ [];
  capacity_tokens = some 4900;
  capacity_source = "provider_loaded";
  budget_tokens = some (pos 661);
  estimated_prompt_tokens = 661;
  basis = "estimate";
  dropped_messages = 2;
  dropped_turns = 1;
  configured_output_tokens = 4096;
  allocated_output_tokens = 3994;
  failure = none;
  failure_code = context_failure_code;
}

abbrev roomy_plan : ContextPlan
roomy_plan = record {
  messages = transcript;
  indices = 0 ∷ 1 ∷ 2 ∷ 3 ∷ [];
  capacity_tokens = some 8192;
  capacity_source = "provider_loaded";
  budget_tokens = some (pos 3686);
  estimated_prompt_tokens = 680;
  basis = "estimate";
  dropped_messages = 0;
  dropped_turns = 0;
  configured_output_tokens = 4096;
  allocated_output_tokens = 4096;
  failure = none;
  failure_code = context_failure_code;
}

small-planned : plan_context small ≡ ok small_plan
unfolding plan_context output_margin first_fit turns_of fits_budget estimate estimate_tools_tokens
    suffix estimate_message_tokens estimate_text_tokens fits_chars window_chars smallest
    output_floor input_budget
small-planned = refl

roomy-planned : plan_context roomy ≡ ok roomy_plan
unfolding plan_context output_margin first_fit turns_of fits_budget estimate estimate_tools_tokens
    suffix estimate_message_tokens estimate_text_tokens fits_chars window_chars smallest
    output_floor input_budget
roomy-planned = refl

plan_context-Fits_example : Fits small 4900 small_plan
plan_context-Fits_example = plan_context-Fits small 4900 small_plan refl small-planned refl

plan_context-IsWindow_example : (kept : ℕ) × IsWindow small small_plan kept
plan_context-IsWindow_example = plan_context-IsWindow small small_plan small-planned

turns_of-partition_example :
    (turns_of transcript).0 ++ flatten (turns_of transcript).1 ≡ range_from 0 (length transcript)
turns_of-partition_example = turns_of-partition transcript

-- ASCII, Greek and CJK
abbrev mixed : Text
mixed = 0x61 ∷ 0x3b1 ∷ 0x4e2d ∷ []

estimate_text_tokens-eq-class_cost_example : estimate_text_tokens mixed ≡ class_cost mixed
estimate_text_tokens-eq-class_cost_example = estimate_text_tokens-eq-class_cost mixed

estimate_text_tokens-append_example :
    (estimate_text_tokens mixed ≤ estimate_text_tokens (mixed ++ codes "abcd"))
    × (estimate_text_tokens (mixed ++ codes "abcd")
        ≤ estimate_text_tokens mixed + estimate_text_tokens (codes "abcd"))
estimate_text_tokens-append_example = estimate_text_tokens-append mixed (codes "abcd")

roomy-room : 4096 + output_margin 8192 < 8192
unfolding output_margin
roomy-room = omega arith

roomy-turns : (mandatory_turns roomy ≤ 2) × (2 ≤ turn_count roomy)
unfolding turns_of
roomy-turns = (omega arith, omega arith)

roomy-total : (choice_of roomy 2).total + 4096 + output_margin 8192 ≤ 8192
unfolding output_margin estimate estimate_tools_tokens estimate_message_tokens estimate_text_tokens
    suffix turns_of
roomy-total = omega arith

roomy-chars : fits roomy 2 ≡ ok true
unfolding fits_chars window_chars suffix turns_of
roomy-chars = refl

plan_context-keeps_history_example :
    (roomy_plan.failure ≡ none)
    × (roomy_plan.allocated_output_tokens ≡ 4096)
    × (roomy_plan.dropped_turns + 2 ≤ turn_count roomy)
plan_context-keeps_history_example =
    plan_context-keeps_history roomy 8192 2 roomy_plan refl roomy-room roomy-turns.0 roomy-turns.1
      roomy-total roomy-chars roomy-planned
