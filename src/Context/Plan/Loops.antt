-- ===== src/Context/Plan/Loops.antt =====
-- What the first loop of `plan_context` over `range(high, low - 1, -1)` returns.
use local_agent_runtime.Base.{
  ℕ, zero, suc, ◌≤◌, ◌<◌, ◌≡◌, Bool, true, false, none, some, List, [], ◌∷◌, arith, ◌==◌, leb, ◌⊎◌,
  inl, inr, Bool-cases, count_down, ==_iff, leb→le,
}
use local_agent_runtime.Failure.{Result, ok}
use local_agent_runtime.Context.Plan.{first_fit}

-- Either a loop over the counts has one more round, or it is empty.
pub count_down-cases :
    (high low : ℕ)
    → ((low ≤ suc high) × (count_down (suc high) low ≡ suc high ∷ count_down high low))
      ⊎ ((suc high < low) × (count_down (suc high) low ≡ []))
count_down-cases high low = elim (Bool-cases (leb low (suc high))) [
  | inl more ↦ inl (ground arith, rw more)
  | inr over ↦ inr (ground arith, rw over)
]

pub count_down-zero :
    (low : ℕ) → ((low ≡ 0) × (count_down 0 low ≡ 0 ∷ [])) ⊎ ((0 < low) × (count_down 0 low ≡ []))
count_down-zero low = elim (Bool-cases (low == 0)) [
  | inl start ↦ inl ((==_iff low 0).0 start, rw start)
  | inr above ↦ inr (ground arith, rw above)
]

pub le_suc-cases : (j n : ℕ) → j ≤ suc n → (j ≤ n) ⊎ (j ≡ suc n)
le_suc-cases j n h = elim (Bool-cases (leb j n)) [
  | inl le ↦ inl (leb→le j n le)
  | inr gt ↦ inr (ground arith)
]

module _ (test : ℕ → Result Bool) where
  -- `kept` is the largest count from `low` to `high` that passes.
  pub record IsLargest (high low kept : ℕ) : Type 0 where
    pub low_le : low ≤ kept
    pub le_high : kept ≤ high
    pub passes : test kept ≡ ok true
    pub larger_fail : (j : ℕ) → kept < j → j ≤ high → test j ≡ ok false

  first_fit-step :
      (k : ℕ) (ks : List ℕ) {kept : ℕ}
      → first_fit test (k ∷ ks) ≡ ok (some kept)
      → ((test k ≡ ok true) × (k ≡ kept))
        ⊎ ((test k ≡ ok false) × (first_fit test ks ≡ ok (some kept)))
  unfolding first_fit
  first_fit-step k ks h = ground arith

  first_fit-nil : {kept : ℕ} → first_fit test [] ≡ ok (some kept) → ⊥
  unfolding first_fit
  first_fit-nil h = cc

  IsLargest-top : (high low : ℕ) → low ≤ high → test high ≡ ok true → IsLargest high low high
  IsLargest-top high low le passes = record {
    low_le = le;
    le_high = omega arith;
    passes = passes;
    larger_fail = λ j above below. absurd (omega arith);
  }

  IsLargest-below :
      {high low kept : ℕ}
      → test (suc high) ≡ ok false
      → IsLargest high low kept
      → IsLargest (suc high) low kept
  IsLargest-below {high} {low} {kept} fails found = record {
    low_le = found.low_le;
    le_high = omega (arith, found.le_high);
    passes = found.passes;
    larger_fail = λ j above below. elim (le_suc-cases j high below) [
      | inl lower ↦ found.larger_fail j above lower
      | inr top ↦ rw top fails
    ];
  }

  pub first_fit-IsLargest :
      (high low : ℕ) {kept : ℕ}
      → first_fit test (count_down high low) ≡ ok (some kept)
      → IsLargest high low kept
  first_fit-IsLargest zero low {kept} h = elim (count_down-zero low) [
    | inl (start, e) ↦ elim (first_fit-step 0 [] (rw e at h)) [
      | inl (passes, here) ↦ rw (← here) (IsLargest-top 0 low (omega arith) passes)
      | inr (fails, later) ↦ absurd (first_fit-nil later)
    ]
    | inr (gt, e) ↦ absurd (first_fit-nil (rw e at h))
  ]
  first_fit-IsLargest (suc high) low {kept} h = elim (count_down-cases high low) [
    | inl (le, e) ↦ elim (first_fit-step (suc high) (count_down high low) (rw e at h)) [
      | inl (passes, here) ↦ rw (← here) (IsLargest-top (suc high) low le passes)
      | inr (fails, later) ↦ IsLargest-below fails (first_fit-IsLargest high low later)
    ]
    | inr (gt, e) ↦ absurd (first_fit-nil (rw e at h))
  ]

  first_fit-step_none :
      (k : ℕ) (ks : List ℕ)
      → first_fit test (k ∷ ks) ≡ ok none
      → (test k ≡ ok false) × (first_fit test ks ≡ ok none)
  unfolding first_fit
  first_fit-step_none k ks h = ground arith

  -- If the loop finds nothing, every count failed.
  pub first_fit-none :
      (high low : ℕ)
      → first_fit test (count_down high low) ≡ ok none
      → (j : ℕ) → low ≤ j
      → j ≤ high
      → test j ≡ ok false
  first_fit-none zero low h j lo hi = elim (count_down-zero low) [
    | inl (start, e) ↦
        let zero_j : j ≡ 0 = omega arith in rw zero_j (first_fit-step_none 0 [] (rw e at h)).0
    | inr (gt, e) ↦ absurd (omega arith)
  ]
  first_fit-none (suc high) low h j lo hi = elim (count_down-cases high low) [
    | inl (le, e) ↦
        let (fails, later) = first_fit-step_none (suc high) (count_down high low) (rw e at h) in
        elim (le_suc-cases j high hi) [
          | inl lower ↦ first_fit-none high low later j lo lower
          | inr top ↦ rw top fails
        ]
    | inr (gt, e) ↦ absurd (omega arith)
  ]
