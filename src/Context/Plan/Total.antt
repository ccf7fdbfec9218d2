-- ===== src/Context/Plan/Total.antt =====
-- Planning ends with a plan wherever windows can be measured, and history is not dropped without
-- need.
use local_agent_runtime.Base.{
  ℕ, zero, suc, ◌≤◌, ◌≡◌, ◌≢◌, refl, Bool, true, false, Option, none, some, List, [], ◌∷◌, arith,
  Bool-cases, inl, inr, ltb, if◌then◌else◌, pos, leb_ℤ, ltb_ℤ, All, count_down,
}
use local_agent_runtime.Failure.{Result, ok, err, ◌>>=◌}
use local_agent_runtime.Context.Estimate.{small_context_tokens}
use local_agent_runtime.Context.Plan.{
  Request, ContextPlan, Choice, mandatory_turns, kept_range, window_of, window_chars, fits_chars,
  fits, turn_count, choice_of, budget_of, fits_budget, first_pass, plan_small, plan_pressed,
  plan_passed, plan_unknown, plan_known, plan_with, plan_context, first_fit, smallest,
}
use local_agent_runtime.Context.Plan.Loops.{count_down-cases, count_down-zero}
use local_agent_runtime.Context.Plan.Smallest.{smallest-ne-none}

-- The result is a value, not an exception.
abbrev pub Returns {ℓ} : {A : Type ℓ} → Result A → Type ℓ
Returns {A = A} m = (a : A) × (m ≡ ok a)

bind-Returns {ℓ} :
    {A B : Type ℓ} (m : Result A) (f : A → Result B)
    → Returns m
    → ((a : A) → m ≡ ok a → Returns (f a))
    → Returns (m >>= f)
bind-Returns (ok a) f h k = k a refl
bind-Returns (err e) f h k = cc (h.1)

if-Returns {ℓ} :
    {A : Type ℓ} (b : Bool) (m n : Result A) → Returns m → Returns n → Returns (if b then m else n)
if-Returns true m n hm hn = hm
if-Returns false m n hm hn = hn

first_fit-Returns :
    (test : ℕ → Result Bool) (ks : List ℕ)
    → All (λ k. Returns (test k)) ks
    → Returns (first_fit test ks)
unfolding first_fit
first_fit-Returns test [] h = (none, refl)
first_fit-Returns test (k ∷ ks) h = bind-Returns (test k) _ h.0 λ found e.
    elim found
      as (λ b. Returns {A = Option ℕ} (elim b [ true ↦ ok (some k) | false ↦ first_fit test ks ])) [
        | true ↦ (some k, refl)
        | false ↦ first_fit-Returns test ks h.1
      ]

smallest-Returns :
    (test : ℕ → Result Bool) (choice : ℕ → Choice) (ks : List ℕ) (best : Option Choice)
    → All (λ k. Returns (test k)) ks
    → Returns (smallest test choice ks best)
unfolding smallest
smallest-Returns test choice [] best h = (best, refl)
smallest-Returns test choice (k ∷ ks) best h =
    bind-Returns (test k) _ h.0 λ found e. smallest-Returns test choice ks _ h.1

-- All counts of a loop over `range(high, low - 1, -1)` are within its bounds.
All-count_down {ℓ} :
    (P : ℕ → Type ℓ) (high low : ℕ)
    → ((k : ℕ) → low ≤ k → k ≤ high → P k)
    → All P (count_down high low)
All-count_down P zero low h = elim (count_down-zero low) [
  | inl (start, e) ↦ rw e (h 0 (omega (arith, start)) (omega arith), tt)
  | inr (above, e) ↦ rw e tt
]
All-count_down P (suc high) low h = elim (count_down-cases high low) [
  | inl (more, e) ↦ rw e (
    h (suc high) more (omega arith),
    All-count_down P high low (λ k below above. h k below (omega (arith, above))),
  )
  | inr (over, e) ↦ rw e tt
]

module _ (r : Request)
    (measured : (kept : ℕ)
      → mandatory_turns r ≤ kept
      → kept ≤ turn_count r
      → Returns (window_chars r (window_of r kept))) where
  fits-Returns : (kept : ℕ) → mandatory_turns r ≤ kept → kept ≤ turn_count r → Returns (fits r kept)
  unfolding fits_chars
  fits-Returns kept low high =
      bind-Returns (window_chars r (window_of r kept)) _ (measured kept low high)
        λ chars e. (_, refl)

  fits_budget-Returns :
      (budget : _) (kept : ℕ)
      → mandatory_turns r ≤ kept
      → kept ≤ turn_count r
      → Returns (fits_budget r budget kept)
  unfolding fits_budget
  fits_budget-Returns budget kept low high =
      elim (Bool-cases (leb_ℤ (pos (choice_of r kept).total) budget)) [
        | inl within ↦ rw within (fits-Returns kept low high)
        | inr over ↦ rw over (false, refl)
      ]

  range_measured : All (λ kept. Returns (fits r kept)) (kept_range r)
  range_measured =
      All-count_down (λ kept. Returns (fits r kept)) (turn_count r) (mandatory_turns r) fits-Returns

  first_pass-Returns : (budget : _) → Returns (first_pass r budget)
  unfolding first_pass
  first_pass-Returns budget = elim (Bool-cases (ltb_ℤ (pos 0) budget)) [
    | inl positive ↦ rw positive (
        first_fit-Returns (fits_budget r budget) (kept_range r) (
          All-count_down (λ kept. Returns (fits_budget r budget kept)) (turn_count r)
            (mandatory_turns r) (fits_budget-Returns budget)))
    | inr negative ↦ rw negative (none, refl)
  ]

  plan_small-Returns :
      (capacity : ℕ) (best : Option Choice) → best ≢ none → Returns (plan_small r capacity best)
  unfolding plan_small
  plan_small-Returns capacity none h = absurd (h refl)
  plan_small-Returns capacity (some best) h = if-Returns _ _ _ (_, refl) (_, refl)

  smallest-some :
      (best : Option Choice)
      → fits r (mandatory_turns r) ≡ ok true
      → smallest (fits r) (choice_of r) (kept_range r) none ≡ ok best
      → best ≢ none
  smallest-some best passes s e =
      smallest-ne-none (fits r) (choice_of r) (turn_count r) (mandatory_turns r) none (ground arith)
        passes (rw e at s)

  mandatory_le : mandatory_turns r ≤ turn_count r
  mandatory_le = ground arith

  plan_pressed-Returns : (capacity : ℕ) → Returns (plan_pressed r capacity)
  unfolding plan_pressed
  plan_pressed-Returns capacity =
      bind-Returns (fits r (mandatory_turns r)) _
        (fits-Returns (mandatory_turns r) (omega arith) mandatory_le)
        λ required e. elim (Bool-cases required) [
          | inl fitting ↦ rw fitting (
              if-Returns (ltb capacity small_context_tokens) _ _
                (bind-Returns (smallest (fits r) (choice_of r) (kept_range r) none)
                  (plan_small r capacity)
                  (smallest-Returns (fits r) (choice_of r) (kept_range r) none range_measured)
                  (λ best s.
                    plan_small-Returns capacity best (smallest-some best (rw fitting at e) s)))
                (_, refl))
          | inr over ↦ rw over (_, refl)
        ]

  plan_passed-Returns : (capacity : ℕ) (chosen : Option ℕ) → Returns (plan_passed r capacity chosen)
  unfolding plan_passed
  plan_passed-Returns capacity none = plan_pressed-Returns capacity
  plan_passed-Returns capacity (some kept) = (_, refl)

  plan_with-Returns : (tokens : Option ℕ) → Returns (plan_with r tokens)
  unfolding plan_unknown plan_known
  plan_with-Returns none =
      bind-Returns (first_fit (fits r) (kept_range r)) _
        (first_fit-Returns (fits r) (kept_range r) range_measured) (λ found e. (_, refl))
  plan_with-Returns (some capacity) =
      bind-Returns (first_pass r (budget_of r capacity)) (plan_passed r capacity)
        (first_pass-Returns (budget_of r capacity))
        (λ chosen e. plan_passed-Returns capacity chosen)

  -- Planning returns a plan whenever each window that it may choose, with the current turn and
  -- any number of the turns before it, can be measured: no exception of the planner's own is
  -- raised, so the assertion that a smallest window was found never fails.
  pub plan_context-Returns : (plan : ContextPlan) × (plan_context r ≡ ok plan)
  unfolding plan_context
  plan_context-Returns = plan_with-Returns r.window.tokens
