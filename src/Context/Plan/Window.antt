-- ===== src/Context/Plan/Window.antt =====
-- The window of a plan is whole turns of the transcript.
use mathlib.Core.Path.{subst}
use local_agent_runtime.Base.{
  ℕ, ◌+◌, ◌≤◌, String, List, ◌++◌, flatten, ◌≡◌, refl, ap, Option, none, some, arith, inl, inr,
  length, sorted, ℤ,
}
use local_agent_runtime.Failure.{ok, >>=-eq-ok, ok-injective}
use local_agent_runtime.Context.Turns.{turns_of, suffix, last_turns}
use local_agent_runtime.Context.Turns.Laws.{
  suffix-Ascending, sorted-Ascending, length-suffix-le, last_turns-split,
}
use local_agent_runtime.Context.Plan.{
  Request, ContextPlan, mandatory_turns, kept_range, window_of, fits, choice_of, plan_of,
  plan_chosen, plan_refused, unknown_plan, plan_unknown, plan_with, plan_context, first_fit, pick,
}
use local_agent_runtime.Context.Plan.Loops.{first_fit-IsLargest}
use local_agent_runtime.Context.Plan.Cases.{
  PlanCase, full, squeezed, input_refused, refused, plan_known-PlanCase,
}

-- A plan is a window of whole turns: the instructions and the last `kept` turns, the current one
-- among them, in the transcript's order.
pub record IsWindow (r : Request) (plan : ContextPlan) (kept : ℕ) : Type 0 where
  pub current_kept : mandatory_turns r ≤ kept
  pub kept_le : kept ≤ length (turns_of r.messages).1
  pub whole_turns :
      (dropped : List (List ℕ)) × (last : List (List ℕ)) × ((turns_of r.messages).1
        ≡ dropped ++ last)
      × (length last ≡ kept)
      × (plan.indices ≡ (turns_of r.messages).0 ++ flatten last)
  pub messages_eq : plan.messages ≡ pick r.messages plan.indices
  pub turns_dropped : plan.dropped_turns + kept ≡ length (turns_of r.messages).1
  pub messages_dropped : plan.dropped_messages + length plan.indices ≡ length r.messages
  pub configured_eq : plan.configured_output_tokens ≡ r.limits.max_output_tokens

abbrev Planned : Request → ContextPlan → Type 0
Planned r plan = (kept : ℕ) × IsWindow r plan kept

module _ (r : Request) where
  pub sorted-window : (kept : ℕ) → sorted (window_of r kept) ≡ window_of r kept
  sorted-window kept = sorted-Ascending (window_of r kept) (suffix-Ascending r.messages kept)

  window-turns :
      (kept : ℕ)
      → sorted (window_of r kept)
        ≡ (turns_of r.messages).0 ++ flatten (last_turns kept (turns_of r.messages).1)
  unfolding suffix
  window-turns kept = sorted-window kept

  plan_of-IsWindow :
      (kept : ℕ) (capacity : Option ℕ) (budget : Option ℤ) (allocated : ℕ) (failure : Option String)
      (code : String)
      → mandatory_turns r ≤ kept
      → kept ≤ length (turns_of r.messages).1
      → IsWindow r (plan_of r (choice_of r kept) capacity budget allocated failure code) kept
  unfolding plan_of
  plan_of-IsWindow kept capacity budget allocated failure code lo hi = record {
    current_kept = lo;
    kept_le = hi;
    whole_turns =
        let (before, split, count) = last_turns-split kept (turns_of r.messages).1 lo hi in
        (before, last_turns kept (turns_of r.messages).1, split, count, window-turns kept);
    messages_eq = refl;
    turns_dropped = omega arith;
    messages_dropped =
        omega (arith, ap length (sorted-window kept), length-suffix-le r.messages kept);
    configured_eq = refl;
  }

  plan_chosen-IsWindow :
      (kept capacity allocated : ℕ) (failure : Option String) (code : String)
      → mandatory_turns r ≤ kept
      → kept ≤ length (turns_of r.messages).1
      → IsWindow r (plan_chosen r capacity (choice_of r kept) allocated failure code) kept
  unfolding plan_chosen
  plan_chosen-IsWindow kept capacity allocated failure code lo hi =
      plan_of-IsWindow kept (some capacity) _ allocated failure code lo hi

  required :
      (mandatory_turns r ≤ mandatory_turns r) × (mandatory_turns r ≤ length (turns_of r.messages).1)
  required = ground arith

  PlanCase-IsWindow :
      (capacity : ℕ) {plan : ContextPlan} → PlanCase r capacity plan → Planned r plan
  unfolding plan_refused
  PlanCase-IsWindow capacity (full kept positive largest e) =
      (kept, rw e (plan_chosen-IsWindow kept capacity _ none _ largest.low_le largest.le_high))
  PlanCase-IsWindow capacity (squeezed best small room e) = elim small.origin [
    | inl known ↦ cc
    | inr (kept, lo, hi, passes, c) ↦
        (kept, rw (e, c) (plan_chosen-IsWindow kept capacity _ none _ lo hi))
  ]
  PlanCase-IsWindow capacity (input_refused over e) = (
    mandatory_turns r,
    rw e (plan_chosen-IsWindow (mandatory_turns r) capacity _ _ _ required.0 required.1),
  )
  PlanCase-IsWindow capacity (refused e) = (
    mandatory_turns r,
    rw e (plan_chosen-IsWindow (mandatory_turns r) capacity _ _ _ required.0 required.1),
  )

  unknown_plan-IsWindow :
      (found : Option ℕ)
      → first_fit (fits r) (kept_range r) ≡ ok found
      → Planned r (unknown_plan r found)
  unfolding unknown_plan
  unknown_plan-IsWindow none e = (
    mandatory_turns r,
    plan_of-IsWindow (mandatory_turns r) none none _ _ _ required.0 required.1,
  )
  unknown_plan-IsWindow (some kept) e =
      let largest =
        first_fit-IsLargest (fits r) (length (turns_of r.messages).1) (mandatory_turns r) e in
      (kept, plan_of-IsWindow kept none none _ _ _ largest.low_le largest.le_high)

  plan_unknown-IsWindow : {plan : ContextPlan} → plan_unknown r ≡ ok plan → Planned r plan
  unfolding plan_unknown
  plan_unknown-IsWindow h =
      let (found, e, rest) =
        >>=-eq-ok (first_fit (fits r) (kept_range r)) (λ found. ok (unknown_plan r found)) h in
      subst (Planned r) (ok-injective rest) (unknown_plan-IsWindow found e)

  plan_with-IsWindow :
      (tokens : Option ℕ) {plan : ContextPlan} → plan_with r tokens ≡ ok plan → Planned r plan
  plan_with-IsWindow none h = plan_unknown-IsWindow h
  plan_with-IsWindow (some capacity) h =
      PlanCase-IsWindow capacity (plan_known-PlanCase r capacity _ h)

  -- Whatever plan is made, with or without a failure, its window is the instructions and the
  -- last turns of the transcript, each turn whole and in order, with the current turn among
  -- them; its counts of dropped turns and messages are exact.
  pub plan_context-IsWindow :
      (plan : ContextPlan) → plan_context r ≡ ok plan → (kept : ℕ) × IsWindow r plan kept
  unfolding plan_context
  plan_context-IsWindow plan h = plan_with-IsWindow r.window.tokens h
