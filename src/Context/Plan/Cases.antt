-- ===== src/Context/Plan/Cases.antt =====
-- How a plan comes about when the capacity is known: the four ways out of `plan_context`.
use local_agent_runtime.Base.{
  ℕ, ◌+◌, ◌≡◌, sym, true, false, Option, none, some, Bool-cases, inl, inr, ltb, pos, leb_ℤ, ltb_ℤ,
  sub_ℕ, pos_part,
}
use local_agent_runtime.Failure.{ok, >>=-eq-ok, ok-injective}
use local_agent_runtime.Context.Estimate.{
  at_most, output_margin, output_floor, small_context_tokens,
}
use local_agent_runtime.Context.Plan.{
  Request, ContextPlan, Choice, mandatory_turns, kept_range, fits, turn_count, choice_of, budget_of,
  fits_budget, first_pass, plan_chosen, plan_refused, plan_small, plan_pressed, plan_passed,
  plan_known, first_fit, smallest, context_failure_code, input_failure_code,
  input_irreducible_message,
}
use local_agent_runtime.Context.Plan.Loops.{IsLargest, first_fit-IsLargest}
use local_agent_runtime.Context.Plan.Smallest.{IsSmallest, smallest-IsSmallest}

module _ (r : Request) (capacity : ℕ) (plan : ContextPlan) where
  pub data PlanCase : Type 0 where
    -- the largest window that fits beside the whole output allowance
    full :
        (kept : ℕ)
        → ltb_ℤ (pos 0) (budget_of r capacity) ≡ true
        → IsLargest (fits_budget r (budget_of r capacity)) (turn_count r) (mandatory_turns r) kept
        → plan
          ≡ plan_chosen r capacity
              (choice_of r kept)
              r.limits.max_output_tokens
              none
              context_failure_code
        → PlanCase
    -- the smallest window, with what it leaves as the allowance
    squeezed :
        (best : Choice)
        → IsSmallest (fits r) (choice_of r) (turn_count r) (mandatory_turns r) none best
        → leb_ℤ (pos (output_floor r.limits)) (sub_ℕ capacity (output_margin capacity + best.total))
          ≡ true
        → plan
          ≡ plan_chosen r capacity best
              (at_most r.limits.max_output_tokens
                (pos_part (sub_ℕ capacity (output_margin capacity + best.total))))
              none
              context_failure_code
        → PlanCase
    -- the required window exceeds the character ceiling
    input_refused :
        fits r (mandatory_turns r) ≡ ok false
        → plan
          ≡ plan_chosen r capacity
              (choice_of r (mandatory_turns r))
              r.limits.max_output_tokens
              (some input_irreducible_message)
              input_failure_code
        → PlanCase
    -- the required window exceeds the model's context
    refused : plan ≡ plan_refused r capacity → PlanCase

  plan_small-PlanCase :
      (best : Option Choice)
      → smallest (fits r) (choice_of r) (kept_range r) none ≡ ok best
      → plan_small r capacity best ≡ ok plan
      → PlanCase
  unfolding plan_small
  plan_small-PlanCase none s h = cc
  plan_small-PlanCase (some best) s h =
      elim (Bool-cases (
        leb_ℤ (pos (output_floor r.limits))
          (sub_ℕ capacity (output_margin capacity + best.total)))) [
            | inl room ↦
                squeezed best
                  (smallest-IsSmallest (fits r) (choice_of r) (turn_count r) (mandatory_turns r)
                    none s)
                  room (sym (ok-injective (rw room at h)))
            | inr tight ↦ refused (sym (ok-injective (rw tight at h)))
          ]

  plan_pressed-PlanCase : plan_pressed r capacity ≡ ok plan → PlanCase
  unfolding plan_pressed
  plan_pressed-PlanCase h =
      let (required, e, rest) = >>=-eq-ok (fits r (mandatory_turns r)) _ h in
      elim (Bool-cases required) [
        | inl fitting ↦ elim (Bool-cases (ltb capacity small_context_tokens)) [
          | inl small ↦
              let (best, s, last) =
                >>=-eq-ok _ (plan_small r capacity) (rw (fitting, small) at rest) in
              plan_small-PlanCase best s last
          | inr large ↦ refused (sym (ok-injective (rw (fitting, large) at rest)))
        ]
        | inr over ↦ input_refused (rw over at e) (sym (ok-injective (rw over at rest)))
      ]

  first_pass-some :
      {kept : ℕ}
      → first_pass r (budget_of r capacity) ≡ ok (some kept)
      → (ltb_ℤ (pos 0) (budget_of r capacity) ≡ true)
        × (first_fit (fits_budget r (budget_of r capacity)) (kept_range r) ≡ ok (some kept))
  unfolding first_pass
  first_pass-some h = elim (Bool-cases (ltb_ℤ (pos 0) (budget_of r capacity))) [
    | inl positive ↦ (positive, rw positive at h)
    | inr negative ↦ cc (rw negative at h)
  ]

  plan_passed-PlanCase :
      (chosen : Option ℕ)
      → first_pass r (budget_of r capacity) ≡ ok chosen
      → plan_passed r capacity chosen ≡ ok plan
      → PlanCase
  unfolding plan_passed
  plan_passed-PlanCase none e h = plan_pressed-PlanCase h
  plan_passed-PlanCase (some kept) e h =
      let (positive, found) = first_pass-some e in
      full kept positive
        (first_fit-IsLargest (fits_budget r (budget_of r capacity)) (turn_count r)
          (mandatory_turns r) found)
        (sym (ok-injective h))

  pub plan_known-PlanCase : plan_known r capacity ≡ ok plan → PlanCase
  unfolding plan_known
  plan_known-PlanCase h =
      let (chosen, e, rest) =
        >>=-eq-ok (first_pass r (budget_of r capacity)) (plan_passed r capacity) h in
      plan_passed-PlanCase chosen e rest
