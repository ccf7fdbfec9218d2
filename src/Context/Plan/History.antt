-- ===== src/Context/Plan/History.antt =====
-- History is not dropped without need.
use mathlib.Core.Path.{subst}
use local_agent_runtime.Base.{
  ℕ, ◌+◌, ◌≤◌, ◌<◌, ◌≡◌, refl, true, Option, none, some, arith, Bool-cases, inl, inr, leb, leb→le,
  pos, leb_ℤ, ltb_ℤ, sub_ℕ,
}
use local_agent_runtime.Failure.{ok, >>=-eq-ok, ok-injective}
use local_agent_runtime.Context.Estimate.{output_margin}
use local_agent_runtime.Context.Plan.{
  Request, ContextPlan, mandatory_turns, fits, turn_count, choice_of, budget_of, fits_budget,
  first_pass, plan_passed, plan_known, plan_with, plan_context, plan_chosen, plan_of,
}
use local_agent_runtime.Context.Plan.Loops.{first_fit-IsLargest, first_fit-none}

budget_test :
    (total output margin capacity : ℕ)
    → total + output + margin ≤ capacity
    → leb_ℤ (pos total) (sub_ℕ capacity (output + margin)) ≡ true
budget_test total output margin capacity h = ground arith

positive_test :
    (output margin capacity : ℕ)
    → output + margin < capacity
    → ltb_ℤ (pos 0) (sub_ℕ capacity (output + margin)) ≡ true
positive_test output margin capacity h = ground arith

module _ (r : Request) where
  first_pass-at :
      (capacity j : ℕ)
      → (chosen : Option ℕ) → ltb_ℤ (pos 0) (budget_of r capacity) ≡ true
      → mandatory_turns r ≤ j
      → j ≤ turn_count r
      → fits_budget r (budget_of r capacity) j ≡ ok true
      → first_pass r (budget_of r capacity) ≡ ok chosen
      → (kept : ℕ) × (chosen ≡ some kept) × (j ≤ kept)
  unfolding first_pass
  first_pass-at capacity j none positive lo hi passes e = cc (
      first_fit-none (fits_budget r (budget_of r capacity)) (turn_count r) (mandatory_turns r)
        (rw positive at e) j lo hi)
  first_pass-at capacity j (some kept) positive lo hi passes e =
      let largest =
        first_fit-IsLargest (fits_budget r (budget_of r capacity)) (turn_count r)
          (mandatory_turns r) (rw positive at e) in
      (
        kept,
        refl,
        elim (Bool-cases (leb j kept)) [
          | inl le ↦ leb→le j kept le
          | inr gt ↦ cc (largest.larger_fail j (ground arith) hi)
        ],
      )

  first_pass-le :
      (capacity kept : ℕ)
      → ltb_ℤ (pos 0) (budget_of r capacity) ≡ true
      → first_pass r (budget_of r capacity) ≡ ok (some kept)
      → kept ≤ turn_count r
  unfolding first_pass
  first_pass-le capacity kept positive e =
      (first_fit-IsLargest (fits_budget r (budget_of r capacity)) (turn_count r) (mandatory_turns r)
        (rw positive at e)).le_high

  passed_plan :
      (capacity kept j : ℕ) (plan : ContextPlan)
      → j ≤ kept
      → kept ≤ turn_count r
      → plan_passed r capacity (some kept) ≡ ok plan
      → (plan.failure ≡ none)
        × (plan.allocated_output_tokens ≡ r.limits.max_output_tokens)
        × (plan.dropped_turns + j ≤ turn_count r)
  unfolding plan_passed plan_chosen plan_of
  passed_plan capacity kept j plan le hi h =
      subst
        (λ (p : ContextPlan).
          (p.failure ≡ none)
          × (p.allocated_output_tokens ≡ r.limits.max_output_tokens)
          × (p.dropped_turns + j ≤ turn_count r))
        (ok-injective h) (refl, refl, omega arith)

  fits_budget-at :
      (capacity j : ℕ)
      → (choice_of r j).total + r.limits.max_output_tokens + output_margin capacity ≤ capacity
      → fits r j ≡ ok true
      → fits_budget r (budget_of r capacity) j ≡ ok true
  unfolding fits_budget
  fits_budget-at capacity j within chars =
      let test : leb_ℤ (pos (choice_of r j).total) (budget_of r capacity) ≡ true =
        budget_test _ _ _ _ within in
      rw test chars

  -- If the window of the last `j` turns fits beside the whole configured output allowance, in
  -- tokens and in characters, then the plan of a model with that capacity has no failure,
  -- allocates the whole allowance and keeps `j` turns at least.
  pub plan_context-keeps_history :
      (capacity j : ℕ) (plan : ContextPlan)
      → r.window.tokens ≡ some capacity
      → r.limits.max_output_tokens + output_margin capacity < capacity
      → mandatory_turns r ≤ j
      → j ≤ turn_count r
      → (choice_of r j).total + r.limits.max_output_tokens + output_margin capacity ≤ capacity
      → fits r j ≡ ok true
      → plan_context r ≡ ok plan
      → (plan.failure ≡ none)
        × (plan.allocated_output_tokens ≡ r.limits.max_output_tokens)
        × (plan.dropped_turns + j ≤ turn_count r)
  unfolding plan_context plan_known
  plan_context-keeps_history capacity j plan known room lo hi within chars h =
      let (chosen, e, rest) =
        >>=-eq-ok (first_pass r (budget_of r capacity)) (plan_passed r capacity)
          (subst (λ tokens. plan_with r tokens ≡ ok plan) known h) in
      let (kept, is_kept, le) =
        first_pass-at capacity j chosen (positive_test _ _ _ room) lo hi
          (fits_budget-at capacity j within chars) e in
      passed_plan capacity kept j plan le
        (first_pass-le capacity kept (positive_test _ _ _ room)
          (subst (λ c. first_pass r (budget_of r capacity) ≡ ok c) is_kept e))
        (subst (λ c. plan_passed r capacity c ≡ ok plan) is_kept rest)
