-- ===== src/Session/Advance/Planned.antt =====
-- What a session's plan promises of the invocation that is made from it, whether or not the
-- model's capacity is known.
use mathlib.Core.Path.{subst}
use local_agent_runtime.Base.{
  ℕ, ◌≤◌, ◌≡◌, refl, ap, sym, ◌∙◌, Option, none, some, arith, Option-cases, inl, inr, true, length,
  leb, List,
}
use local_agent_runtime.Failure.{Result, ok, >>=-eq-ok, ok-injective}
use local_agent_runtime.Contracts.{Message}
use local_agent_runtime.Context.Turns.{turns_of}
use local_agent_runtime.Context.Estimate.Prompt.{estimate_prompt_chars}
use local_agent_runtime.Context.Plan.{
  Request, ContextPlan, pick, fits, fits_chars, window_chars, first_fit, kept_range,
  mandatory_turns, plan_of, unknown_plan, plan_unknown, plan_with, plan_context,
}
use local_agent_runtime.Context.Plan.Fitting.{plan_context-Fits}
use local_agent_runtime.Context.Plan.Loops.{first_fit-IsLargest}
use local_agent_runtime.Context.Plan.Window.{sorted-window, plan_context-IsWindow}

unknown_plan-fits_chars :
    (r : Request) (found : Option ℕ)
    → first_fit (fits r) (kept_range r) ≡ ok found
    → (unknown_plan r found).failure ≡ none
    → fits_chars r (unknown_plan r found).indices ≡ ok true
unfolding unknown_plan plan_of
unknown_plan-fits_chars r none e h = cc
unknown_plan-fits_chars r (some kept) e h =
    let largest =
      first_fit-IsLargest (fits r) (length (turns_of r.messages).1) (mandatory_turns r) e in
    rw (sorted-window r kept) largest.passes

plan_unknown-fits_chars :
    (r : Request) (plan : ContextPlan)
    → plan_unknown r ≡ ok plan
    → plan.failure ≡ none
    → fits_chars r plan.indices ≡ ok true
unfolding plan_unknown
plan_unknown-fits_chars r plan h fine =
    let (found, e, rest) = >>=-eq-ok (first_fit (fits r) (kept_range r)) _ h in
    let same = ok-injective rest in
    subst (λ (p : ContextPlan). p.failure ≡ none → fits_chars r p.indices ≡ ok true) same
      (unknown_plan-fits_chars r found e) fine

-- The characters of a window that was planned without a failure are within the input limit.
pub planned-fits_chars :
    (r : Request) (plan : ContextPlan)
    → plan_context r ≡ ok plan
    → plan.failure ≡ none
    → fits_chars r plan.indices ≡ ok true
unfolding plan_context
planned-fits_chars r plan h fine = elim (Option-cases r.window.tokens) [
  | inl absent ↦
      plan_unknown-fits_chars r plan (subst (λ tokens. plan_with r tokens ≡ ok plan) absent h) fine
  | inr (capacity, known) ↦ (plan_context-Fits r capacity plan known h fine).chars_fit
]

window_chars-measured :
    (r : Request) (measure : List Message → Result ℕ) (indices : List ℕ)
    → r.measure ≡ some measure
    → window_chars r indices ≡ measure (pick r.messages indices)
unfolding window_chars
window_chars-measured r measure indices measured = rw (measured, window_chars) refl

window_chars-estimated :
    (r : Request) (indices : List ℕ)
    → r.measure ≡ none
    → window_chars r indices
      ≡ estimate_prompt_chars (pick r.messages indices) r.tools r.output_schema
unfolding window_chars
window_chars-estimated r indices unmeasured = rw (unmeasured, window_chars) refl

-- The window's size, as `fits_chars` has it from the measure of the messages that are sent.
pub planned-size :
    (r : Request) (plan : ContextPlan) (measure : List Message → Result ℕ)
    → r.measure ≡ some measure
    → plan_context r ≡ ok plan
    → plan.failure ≡ none
    → (size : ℕ) × (measure plan.messages ≡ ok size) × (size ≤ r.limits.max_input_chars)
unfolding fits_chars
planned-size r plan measure measured h fine =
    let (size, sized, within) =
      >>=-eq-ok (window_chars r plan.indices) _ (planned-fits_chars r plan h fine) in
    let (kept, window) = plan_context-IsWindow r plan h in
    let fits : leb size r.limits.max_input_chars ≡ true = ok-injective within in
    (
      size,
      ap measure window.messages_eq
          ∙ sym (window_chars-measured r measure plan.indices measured)
          ∙ sized,
      ground arith,
    )

-- The same without a measure: the size is the estimate.
pub planned-estimate :
    (r : Request) (plan : ContextPlan)
    → r.measure ≡ none
    → plan_context r ≡ ok plan
    → plan.failure ≡ none
    → (size : ℕ) × (estimate_prompt_chars plan.messages r.tools r.output_schema ≡ ok size)
      × (size ≤ r.limits.max_input_chars)
unfolding fits_chars
planned-estimate r plan unmeasured h fine =
    let (size, sized, within) =
      >>=-eq-ok (window_chars r plan.indices) _ (planned-fits_chars r plan h fine) in
    let (kept, window) = plan_context-IsWindow r plan h in
    let fits : leb size r.limits.max_input_chars ≡ true = ok-injective within in
    (
      size,
      ap (λ ms. estimate_prompt_chars ms r.tools r.output_schema) window.messages_eq
          ∙ sym (window_chars-estimated r plan.indices unmeasured)
          ∙ sized,
      ground arith,
    )

unknown_plan-allocated :
    (r : Request) (found : Option ℕ)
    → (unknown_plan r found).allocated_output_tokens ≡ r.limits.max_output_tokens
unfolding unknown_plan plan_of
unknown_plan-allocated r none = refl
unknown_plan-allocated r (some kept) = refl

plan_unknown-allocated :
    (r : Request) (plan : ContextPlan)
    → plan_unknown r ≡ ok plan
    → plan.allocated_output_tokens ≤ r.limits.max_output_tokens
unfolding plan_unknown
plan_unknown-allocated r plan h =
    let (found, e, rest) = >>=-eq-ok (first_fit (fits r) (kept_range r)) _ h in
    subst (λ (p : ContextPlan). p.allocated_output_tokens ≤ r.limits.max_output_tokens)
      (ok-injective rest) (omega (arith, unknown_plan-allocated r found))

-- The output that is allocated without a failure is no more than the configured one.
pub planned-allocated :
    (r : Request) (plan : ContextPlan)
    → plan_context r ≡ ok plan
    → plan.failure ≡ none
    → plan.allocated_output_tokens ≤ r.limits.max_output_tokens
unfolding plan_context
planned-allocated r plan h fine = elim (Option-cases r.window.tokens) [
  | inl absent ↦
      plan_unknown-allocated r plan (subst (λ tokens. plan_with r tokens ≡ ok plan) absent h)
  | inr (capacity, known) ↦ (plan_context-Fits r capacity plan known h fine).allocated_le
]
