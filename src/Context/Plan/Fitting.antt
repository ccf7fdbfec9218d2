-- ===== src/Context/Plan/Fitting.antt =====
-- A plan without a failure fits the model and the profile.
use mathlib.Core.Path.{subst}
use local_agent_runtime.Base.{
  ℕ, ◌+◌, ◌≤◌, String, ◌≡◌, true, none, some, arith, Bool-cases, inl, inr, pos, leb_ℤ, sub_ℕ,
  pos_part, ℤ,
}
use local_agent_runtime.Failure.{ok}
use local_agent_runtime.Context.Estimate.{at_most, output_margin, output_floor}
use local_agent_runtime.Context.Plan.{
  Request, ContextPlan, fits_chars, fits, choice_of, budget_of, fits_budget, plan_of, plan_chosen,
  plan_refused, plan_with, plan_context, context_failure_code,
}
use local_agent_runtime.Context.Plan.Cases.{
  PlanCase, full, squeezed, input_refused, refused, plan_known-PlanCase,
}
use local_agent_runtime.Context.Plan.Window.{sorted-window}

within_budget :
    (total output margin capacity : ℕ)
    → leb_ℤ (pos total) (sub_ℕ capacity (output + margin)) ≡ true
    → total + output + margin ≤ capacity
within_budget total output margin capacity h = ground arith

room_left :
    (floor total margin capacity : ℕ)
    → leb_ℤ (pos floor) (sub_ℕ capacity (margin + total)) ≡ true
    → (floor ≤ pos_part (sub_ℕ capacity (margin + total)))
      × (total + pos_part (sub_ℕ capacity (margin + total)) + margin ≤ capacity)
room_left floor total margin capacity h = ground arith

at_most-bounds :
    (output available floor : ℕ)
    → (at_most output available ≤ output)
      × (at_most output floor ≤ available → at_most output floor ≤ at_most output available)
at_most-bounds output available floor = (ground arith, λ h. ground arith)

at_most-fits :
    (output available total margin capacity : ℕ)
    → total + available + margin ≤ capacity
    → total + at_most output available + margin ≤ capacity
at_most-fits output available total margin capacity h = ground arith

module _ (r : Request) where
  -- What a plan without a failure promises for a model with `capacity` tokens.
  pub record Fits (capacity : ℕ) (plan : ContextPlan) : Type 0 where
    pub prompt_fits :
        plan.estimated_prompt_tokens + plan.allocated_output_tokens + output_margin capacity
        ≤ capacity
    pub allocated_le : plan.allocated_output_tokens ≤ r.limits.max_output_tokens
    pub floor_le : output_floor r.limits ≤ plan.allocated_output_tokens
    pub chars_fit : fits_chars r plan.indices ≡ ok true

  fits_budget-true :
      (budget : ℤ) (kept : ℕ)
      → fits_budget r budget kept ≡ ok true
      → (leb_ℤ (pos (choice_of r kept).total) budget ≡ true) × (fits r kept ≡ ok true)
  unfolding fits_budget
  fits_budget-true budget kept h = elim (Bool-cases (leb_ℤ (pos (choice_of r kept).total) budget)) [
    | inl within ↦ (within, rw within at h)
    | inr over ↦ cc (rw over at h)
  ]

  plan_chosen-Fits :
      (kept capacity allocated : ℕ) (code : String)
      → (choice_of r kept).total + allocated + output_margin capacity ≤ capacity
      → allocated ≤ r.limits.max_output_tokens
      → output_floor r.limits ≤ allocated
      → fits r kept ≡ ok true
      → Fits capacity (plan_chosen r capacity (choice_of r kept) allocated none code)
  unfolding plan_chosen plan_of
  plan_chosen-Fits kept capacity allocated code total le floor chars = record {
    prompt_fits = total;
    allocated_le = le;
    floor_le = floor;
    chars_fit = rw (sorted-window r kept) chars;
  }

  squeezed-Fits :
      (kept capacity : ℕ)
      → leb_ℤ
          (pos (output_floor r.limits))
          (sub_ℕ capacity (output_margin capacity + (choice_of r kept).total))
        ≡ true
      → fits r kept ≡ ok true
      → Fits capacity (
          plan_chosen r capacity
            (choice_of r kept)
            (at_most r.limits.max_output_tokens
              (pos_part (sub_ℕ capacity (output_margin capacity + (choice_of r kept).total))))
            none
            context_failure_code)
  unfolding output_floor
  squeezed-Fits kept capacity room chars =
      let (floor, total) =
        room_left _ (choice_of r kept).total (output_margin capacity) capacity room in
      let available =
        pos_part (sub_ℕ capacity (output_margin capacity + (choice_of r kept).total)) in
      plan_chosen-Fits kept capacity _ _
        (at_most-fits r.limits.max_output_tokens available _ _ _ total)
        (at_most-bounds r.limits.max_output_tokens available 2048).0
        ((at_most-bounds r.limits.max_output_tokens available 2048).1 floor) chars

  PlanCase-Fits :
      (capacity : ℕ) (plan : ContextPlan)
      → PlanCase r capacity plan
      → plan.failure ≡ none
      → Fits capacity plan
  unfolding output_floor
  PlanCase-Fits capacity plan (full kept positive largest e) h =
      let (within, chars) = fits_budget-true (budget_of r capacity) kept largest.passes in
      rw e (
        plan_chosen-Fits kept capacity r.limits.max_output_tokens _
          (within_budget _ _ (output_margin capacity) capacity within) (omega arith) (ground arith)
          chars)
  PlanCase-Fits capacity plan (squeezed best small room e) h = elim small.origin [
    | inl known ↦ cc
    | inr (kept, lo, hi, passes, c) ↦ rw (e, c) (squeezed-Fits kept capacity (rw c at room) passes)
  ]
  PlanCase-Fits capacity plan (input_refused over e) h = unfold plan_chosen plan_of in cc
  PlanCase-Fits capacity plan (refused e) h = unfold plan_refused in cc

  -- A plan without a failure for a model of known capacity fits it: the estimated prompt, the
  -- allocated output and the margin stay within the capacity; the allocation is between the
  -- useful floor and the configured allowance; and the window's characters are within the
  -- profile's input ceiling.
  pub plan_context-Fits :
      (capacity : ℕ) (plan : ContextPlan)
      → r.window.tokens ≡ some capacity
      → plan_context r ≡ ok plan
      → plan.failure ≡ none
      → Fits capacity plan
  unfolding plan_context
  plan_context-Fits capacity plan known h none_failed =
      PlanCase-Fits capacity plan
        (plan_known-PlanCase r capacity plan
          (subst (λ tokens. plan_with r tokens ≡ ok plan) known h))
        none_failed
