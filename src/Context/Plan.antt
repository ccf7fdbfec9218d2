-- ===== src/Context/Plan.antt =====
-- `plan_context` and `checked_plan` of context.py. The adapter's `measure` of a candidate window
-- may raise, as the estimate that stands in for it may, so a plan is a `Result`.
pub mod Loops
pub mod Smallest
pub mod Cases
pub mod Window
pub mod Fitting
pub mod Total
pub mod History
use local_agent_runtime.Base.{
  ℕ, ◌+◌, ◌-◌, String, Bool, true, false, not, ◌&&◌, Option, none, some, List, [], ◌∷◌, map, ltb,
  leb, if◌then◌else◌, is_some, length, get_elem?, get_or, keep, all, sum_of, has, count_down,
  sorted, ℤ, pos, sub_ℕ, leb_ℤ, ltb_ℤ, pos_part,
}
use local_agent_runtime.Failure.{Result, ok, err, crash, runtime_failure, ◌>>=◌}
use local_agent_runtime.Json.{Fields}
use local_agent_runtime.Contracts.{Message, ToolDefinition, Limits, ContextWindow}
use local_agent_runtime.Context.Estimate.{
  at_most, small_context_tokens, template_overhead_tokens, estimate_message_tokens,
  estimate_tools_tokens, output_margin, input_budget, output_floor,
}
use local_agent_runtime.Context.Estimate.Prompt.{estimate_prompt_chars}
use local_agent_runtime.Context.Turns.{turns_of, suffix}

-- The message set of the previous provider call; the set is the list of its elements.
pub record ObservedPrompt : Type 0 where
  pub indices : List ℕ
  pub prompt_tokens : ℕ

pub record ContextPlan : Type 0 where
  pub messages : List Message
  pub indices : List ℕ
  pub capacity_tokens : Option ℕ
  pub capacity_source : String
  pub budget_tokens : Option ℤ
  pub estimated_prompt_tokens : ℕ
  pub basis : String
  pub dropped_messages : ℕ
  pub dropped_turns : ℕ
  pub configured_output_tokens : ℕ
  pub allocated_output_tokens : ℕ
  pub failure : Option String
  pub failure_code : String

abbrev pub is_reduced : ContextPlan → Bool
is_reduced plan = ltb 0 plan.dropped_messages

abbrev pub is_output_reduced : ContextPlan → Bool
is_output_reduced plan = ltb plan.allocated_output_tokens plan.configured_output_tokens

abbrev pub irreducible_message : String
irreducible_message =
    "The current request and its required context exceed the model's context window"

abbrev pub reserve_message : String
reserve_message = "The model's loaded context window cannot hold the configured output limit"

abbrev pub input_irreducible_message : String
input_irreducible_message =
    "The current request and its required context exceed the profile's input limit"

abbrev pub context_failure_code : String
context_failure_code = "context_window_exceeded"

abbrev pub input_failure_code : String
input_failure_code = "input_limit_exceeded"

-- The tuple `(retained, kept_turns, total, basis)`.
pub record Choice : Type 0 where
  pub retained : List ℕ
  pub kept_turns : ℕ
  pub total : ℕ
  pub basis : String

-- `for kept_turns in …: if test(kept_turns): …; break`
unfoldable pub first_fit : (ℕ → Result Bool) → List ℕ → Result (Option ℕ)
first_fit test [] = ok none
first_fit test (kept ∷ rest) = do
  fits ← test kept
  elim fits [ true ↦ ok (some kept) | false ↦ first_fit test rest ]

improved : Option Choice → Choice → Option Choice
improved none new = some new
improved (some old) new = if ltb new.total old.total then some new else some old

-- The loop that keeps the smallest window among those that fit, the first one of a size.
unfoldable pub smallest :
    (ℕ → Result Bool) → (ℕ → Choice) → List ℕ → Option Choice → Result (Option Choice)
unfolding improved
smallest test choice [] best = ok best
smallest test choice (kept ∷ rest) best = do
  fits ← test kept
  smallest test choice rest (if fits then improved best (choice kept) else best)

-- `[messages[index] for index in indices]`; an index out of range would raise, and none of a
-- window is.
abbrev pub pick : List Message → List ℕ → List Message
pick messages [] = []
pick messages (index ∷ indices) = elim (get_elem? messages index) [
  | none ↦ pick messages indices
  | some m ↦ m ∷ pick messages indices
]

-- The arguments of `plan_context`.
pub record Request : Type 0 where
  pub messages : List Message
  pub tools : List ToolDefinition
  pub output_schema : Option Fields
  pub limits : Limits
  pub window : ContextWindow
  pub observed : Option ObservedPrompt
  pub measure : Option (List Message → Result ℕ)

module _ (r : Request) where
  abbrev pub mandatory_turns : ℕ
  mandatory_turns = at_most (length (turns_of r.messages).1) 1

  -- `range(len(turns), mandatory_turns - 1, -1)`
  abbrev pub kept_range : List ℕ
  kept_range = count_down (length (turns_of r.messages).1) mandatory_turns

  abbrev pub window_of : ℕ → List ℕ
  window_of kept = suffix (turns_of r.messages).0 (turns_of r.messages).1 kept

  -- The size of a window in characters, exact or estimated.
  unfoldable pub window_chars : List ℕ → Result ℕ
  window_chars indices = elim r.measure [
    | none ↦ estimate_prompt_chars (pick r.messages indices) r.tools r.output_schema
    | some measure ↦ measure (pick r.messages indices)
  ]

  unfoldable pub fits_chars : List ℕ → Result Bool
  fits_chars indices = do chars ← window_chars indices; ok (leb chars r.limits.max_input_chars)

  abbrev pub turn_count : ℕ
  turn_count = length (turns_of r.messages).1

  abbrev pub fits : ℕ → Result Bool
  fits kept = fits_chars (window_of kept)

  per_message : ℕ → ℕ
  per_message index = get_or (map estimate_message_tokens r.messages) index 0

  abbrev heuristic : List ℕ → ℕ × String
  heuristic indices = (
    template_overhead_tokens
        + estimate_tools_tokens r.tools r.output_schema
        + sum_of per_message indices,
    "estimate",
  )

  unfoldable pub estimate : List ℕ → ℕ × String
  unfolding per_message
  estimate indices = elim r.observed [
    | none ↦ heuristic indices
    | some seen ↦
        if all (has indices) seen.indices
        then (
          seen.prompt_tokens + sum_of per_message (keep (λ i. not (has seen.indices i)) indices),
          "calibrated",
        )
        else heuristic indices
  ]

  abbrev pub choice_of : ℕ → Choice
  choice_of kept = record {
    retained = window_of kept;
    kept_turns = kept;
    total = (estimate (window_of kept)).0;
    basis = (estimate (window_of kept)).1;
  }

  -- The plan of a chosen window; `budget` is the effective one.
  unfoldable pub plan_of :
      Choice → Option ℕ → Option ℤ → (allocated : ℕ) → Option String → String → ContextPlan
  plan_of chosen capacity budget allocated failure failure_code =
      let indices = sorted chosen.retained in
      record {
        messages = pick r.messages indices;
        indices = indices;
        capacity_tokens = capacity;
        capacity_source = r.window.source;
        budget_tokens = budget;
        estimated_prompt_tokens = chosen.total;
        basis = chosen.basis;
        dropped_messages = length r.messages - length indices;
        dropped_turns = length (turns_of r.messages).1 - chosen.kept_turns;
        configured_output_tokens = r.limits.max_output_tokens;
        allocated_output_tokens = allocated;
        failure = failure;
        failure_code = failure_code;
      }

  -- Without a capacity only the character ceiling prunes.
  unfoldable pub unknown_plan : Option ℕ → ContextPlan
  unfolding plan_of
  unknown_plan (some kept) =
      plan_of (choice_of kept) none none r.limits.max_output_tokens none input_failure_code
  unknown_plan none =
      plan_of (choice_of mandatory_turns) none none r.limits.max_output_tokens
        (some input_irreducible_message) input_failure_code

  unfoldable pub plan_unknown : Result ContextPlan
  unfolding unknown_plan
  plan_unknown = do found ← first_fit fits kept_range; ok (unknown_plan found)

  abbrev pub budget_of : ℕ → ℤ
  budget_of capacity = sub_ℕ capacity (r.limits.max_output_tokens + output_margin capacity)

  -- The test of the first pass, `total <= budget and fits_chars(retained)`.
  unfoldable pub fits_budget : ℤ → ℕ → Result Bool
  fits_budget budget kept =
      if leb_ℤ (pos (choice_of kept).total) budget then fits_chars (window_of kept) else ok false

  pub first_pass : ℤ → Result (Option ℕ)
  first_pass budget =
      if ltb_ℤ (pos 0) budget then first_fit (fits_budget budget) kept_range else ok none

  unfoldable pub plan_chosen : ℕ → Choice → (allocated : ℕ) → Option String → String → ContextPlan
  unfolding plan_of
  plan_chosen capacity chosen allocated failure failure_code =
      plan_of chosen (some capacity) (input_budget r.window r.limits (some allocated)) allocated
        failure failure_code

  -- Even the mandatory window does not fit the model.
  unfoldable pub plan_refused : ℕ → ContextPlan
  unfolding plan_chosen
  plan_refused capacity =
      plan_chosen capacity (choice_of mandatory_turns) r.limits.max_output_tokens
        (some (
          if leb_ℤ (budget_of capacity) (pos 0) && leb small_context_tokens capacity
          then reserve_message
          else irreducible_message))
        context_failure_code

  -- A small context under pressure: what is left beside the smallest window goes to output.
  pub plan_small : ℕ → Option Choice → Result ContextPlan
  unfolding plan_refused
  plan_small capacity none = err (crash "AssertionError")
  plan_small capacity (some best) =
      let available = sub_ℕ capacity (output_margin capacity + best.total) in
      if leb_ℤ (pos (output_floor r.limits)) available
      then ok (
          plan_chosen capacity best (at_most r.limits.max_output_tokens (pos_part available)) none
            context_failure_code)
      else ok (plan_refused capacity)

  pub plan_pressed : ℕ → Result ContextPlan
  unfolding plan_small
  plan_pressed capacity = do
    required_fits ← fits_chars (window_of mandatory_turns)
    if not required_fits
        then ok (
            plan_chosen capacity (choice_of mandatory_turns) r.limits.max_output_tokens
              (some input_irreducible_message) input_failure_code)
        else if ltb capacity small_context_tokens
        then (do best ← smallest fits choice_of kept_range none; plan_small capacity best)
        else ok (plan_refused capacity)

  pub plan_passed : ℕ → Option ℕ → Result ContextPlan
  unfolding plan_pressed
  plan_passed capacity none = plan_pressed capacity
  plan_passed capacity (some kept) =
      ok
        (plan_chosen capacity (choice_of kept) r.limits.max_output_tokens none context_failure_code)

  unfoldable pub plan_known : ℕ → Result ContextPlan
  unfolding first_pass plan_passed
  plan_known capacity = do chosen ← first_pass (budget_of capacity); plan_passed capacity chosen

  abbrev pub plan_with : Option ℕ → Result ContextPlan
  plan_with none = plan_unknown
  plan_with (some capacity) = plan_known capacity

  unfoldable pub plan_context : Result ContextPlan
  unfolding plan_unknown plan_known
  plan_context = plan_with r.window.tokens

-- The plan's failure, if it has one, is raised.
unfoldable pub checked_plan : ContextPlan → Result ContextPlan
checked_plan plan = elim plan.failure [
  | none ↦ ok plan
  | some message ↦ err (runtime_failure plan.failure_code message 400)
]
