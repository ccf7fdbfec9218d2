-- ===== src/Context/Plan/Smallest.antt =====
-- What the loop of `plan_context` for the smallest window returns.
use local_agent_runtime.Base.{
  ℕ, zero, suc, ◌≤◌, ◌<◌, ◌≡◌, ◌≢◌, refl, ◌∙◌, Bool, true, false, Option, none, some, List, [], ◌∷◌,
  arith, ltb, ◌⊎◌, inl, inr, Bool-cases, count_down,
}
use local_agent_runtime.Failure.{Result, ok, >>=-eq-ok}
use local_agent_runtime.Context.Plan.{Choice, improved, smallest}
use local_agent_runtime.Context.Plan.Loops.{le_suc-cases, count_down-cases, count_down-zero}

fail-ne-pass : {r : Result Bool} → r ≡ ok false → r ≡ ok true → ⊥
fail-ne-pass p q = cc

improved-cases :
    (best : Option Choice) (new : Choice)
    → (m : Choice) × (improved best new ≡ some m)
      × (m.total ≤ new.total)
      × ((old : Choice) → best ≡ some old → m.total ≤ old.total)
      × ((m ≡ new) ⊎ (best ≡ some m))
unfolding improved
improved-cases none new = (new, refl, omega arith, λ old e. cc, inl refl)
improved-cases (some b) new = elim (Bool-cases (ltb new.total b.total)) [
  | inl less ↦ rw less (new, refl, omega arith, λ old e. ground arith, inl refl)
  | inr kept ↦ rw kept (b, refl, ground arith, λ old e. ground arith, inr refl)
]

module _ (test : ℕ → Result Bool) (choice : ℕ → Choice) where
  -- `c` is a smallest choice among the counts that pass, or a better one that was known before.
  pub record IsSmallest (high low : ℕ) (best : Option Choice) (c : Choice) : Type 0 where
    pub origin :
        (best ≡ some c) ⊎ ((k : ℕ) × (low ≤ k) × (k ≤ high) × (test k ≡ ok true) × (c ≡ choice k))
    pub minimal : (j : ℕ) → low ≤ j → j ≤ high → test j ≡ ok true → c.total ≤ (choice j).total
    pub not_worse : (old : Choice) → best ≡ some old → c.total ≤ old.total

  smallest-step :
      (k : ℕ) (ks : List ℕ) (best : Option Choice) {c : Choice}
      → smallest test choice (k ∷ ks) best ≡ ok (some c)
      → ((test k ≡ ok true) × (smallest test choice ks (improved best (choice k)) ≡ ok (some c)))
        ⊎ ((test k ≡ ok false) × (smallest test choice ks best ≡ ok (some c)))
  unfolding smallest
  smallest-step k ks best h = ground arith

  smallest-nil :
      (best : Option Choice) {c : Choice}
      → smallest test choice [] best ≡ ok (some c)
      → best ≡ some c
  unfolding smallest
  smallest-nil best h = cc

  -- one more count that passes
  IsSmallest-pass :
      {high low : ℕ} (best : Option Choice) {c : Choice}
      → low ≤ suc high
      → test (suc high) ≡ ok true
      → IsSmallest high low (improved best (choice (suc high))) c
      → IsSmallest (suc high) low best c
  IsSmallest-pass {high} {low} best {c} le passes found =
      let (m, e, beats, keeps, from) = improved-cases best (choice (suc high)) in
      record {
        origin = elim found.origin [
          | inl known ↦ elim from [
            | inl new ↦ inr (suc high, le, omega arith, passes, ground arith)
            | inr old ↦ inl (ground arith)
          ]
          | inr (k, lo, hi, p, q) ↦ inr (k, lo, omega arith, p, q)
        ];
        minimal = λ j lo hi p. elim (le_suc-cases j high hi) [
          | inl lower ↦ found.minimal j lo lower p
          | inr top ↦ rw top (omega (arith, found.not_worse m e))
        ];
        not_worse = λ old known. omega (arith, found.not_worse m e, keeps old known);
      }

  -- one more count that fails
  IsSmallest-fail :
      {high low : ℕ} (best : Option Choice) {c : Choice}
      → test (suc high) ≡ ok false
      → IsSmallest high low best c
      → IsSmallest (suc high) low best c
  IsSmallest-fail {high} {low} best fails found = record {
    origin = elim found.origin [
      | inl known ↦ inl known
      | inr (k, lo, hi, p, q) ↦ inr (k, lo, omega arith, p, q)
    ];
    minimal = λ j lo hi p. elim (le_suc-cases j high hi) [
      | inl lower ↦ found.minimal j lo lower p
      | inr top ↦ absurd (fail-ne-pass fails (rw top at p))
    ];
    not_worse = found.not_worse;
  }

  IsSmallest-empty :
      (high low : ℕ) (best : Option Choice) {c : Choice}
      → high < low
      → best ≡ some c
      → IsSmallest high low best c
  IsSmallest-empty high low best h known = record {
    origin = inl known;
    minimal = λ j lo hi p. absurd (omega arith);
    not_worse = λ old e. ground arith;
  }

  IsSmallest-single :
      (best : Option Choice) {c : Choice}
      → smallest test choice (0 ∷ []) best ≡ ok (some c)
      → IsSmallest 0 0 best c
  IsSmallest-single best {c} h = elim (smallest-step 0 [] best h) [
    | inl (passes, last) ↦
        let (m, e, beats, keeps, from) = improved-cases best (choice 0) in
        let is_m : c ≡ m = ground (arith, smallest-nil (improved best (choice 0)) last) in
        record {
          origin = elim from [
            | inl new ↦ inr (0, omega arith, omega arith, passes, is_m ∙ new)
            | inr old ↦ inl (rw is_m old)
          ];
          minimal = λ j lo hi p. let z : j ≡ 0 = omega arith in rw (z, is_m) beats;
          not_worse = λ old known. rw is_m (keeps old known);
        }
    | inr (fails, last) ↦ record {
      origin = inl (smallest-nil best last);
      minimal = λ j lo hi p. let z : j ≡ 0 = omega arith in absurd (fail-ne-pass fails (rw z at p));
      not_worse = λ old known. ground (arith, smallest-nil best last);
    }
  ]

  pub smallest-IsSmallest :
      (high low : ℕ) (best : Option Choice) {c : Choice}
      → smallest test choice (count_down high low) best ≡ ok (some c)
      → IsSmallest high low best c
  smallest-IsSmallest zero low best {c} h = elim (count_down-zero low) [
    | inl (start, e) ↦ rw start (IsSmallest-single best (rw e at h))
    | inr (gt, e) ↦ IsSmallest-empty 0 low best gt (smallest-nil best (rw e at h))
  ]
  smallest-IsSmallest (suc high) low best {c} h = elim (count_down-cases high low) [
    | inl (le, e) ↦ elim (smallest-step (suc high) (count_down high low) best (rw e at h)) [
      | inl (passes, later) ↦
          IsSmallest-pass best le passes
            (smallest-IsSmallest high low (improved best (choice (suc high))) later)
      | inr (fails, later) ↦ IsSmallest-fail best fails (smallest-IsSmallest high low best later)
    ]
    | inr (gt, e) ↦ IsSmallest-empty (suc high) low best gt (smallest-nil best (rw e at h))
  ]

  smallest-ne-none_known : (ks : List ℕ) (b : Choice) → smallest test choice ks (some b) ≢ ok none
  unfolding smallest
  smallest-ne-none_known [] b h = cc
  smallest-ne-none_known (k ∷ ks) b h =
      let (m, e, _, _, _) = improved-cases (some b) (choice k) in
      ground (arith, smallest-ne-none_known ks b, smallest-ne-none_known ks m)

  smallest-ne-none_pass :
      (k : ℕ) (ks : List ℕ) (best : Option Choice)
      → test k ≡ ok true
      → smallest test choice (k ∷ ks) best ≢ ok none
  unfolding smallest
  smallest-ne-none_pass k ks best p h =
      let (m, e, _, _, _) = improved-cases best (choice k) in
      ground (arith, smallest-ne-none_known ks m)

  smallest-none-cons :
      (k : ℕ) (ks : List ℕ) (best : Option Choice)
      → smallest test choice (k ∷ ks) best ≡ ok none
      → (best' : Option Choice) × (smallest test choice ks best' ≡ ok none)
  unfolding smallest
  smallest-none-cons k ks best h = let (fits, _, rest) = >>=-eq-ok (test k) _ h in (_, rest)

  -- If the lowest count passes, the loop returns a choice or raises.
  pub smallest-ne-none :
      (high low : ℕ) (best : Option Choice)
      → low ≤ high
      → test low ≡ ok true
      → smallest test choice (count_down high low) best ≢ ok none
  smallest-ne-none zero low best le p h = elim (count_down-zero low) [
    | inl (start, e) ↦ smallest-ne-none_pass 0 [] best (rw start at p) (rw e at h)
    | inr (gt, e) ↦ absurd (omega arith)
  ]
  smallest-ne-none (suc high) low best le p h = elim (count_down-cases high low) [
    | inl (_, e) ↦ elim (le_suc-cases low high le) [
      | inl lower ↦
          let (best', later) =
            smallest-none-cons (suc high) (count_down high low) best (rw e at h) in
          smallest-ne-none high low best' lower p later
      | inr top ↦
          smallest-ne-none_pass (suc high) (count_down high low) best (rw top at p) (rw e at h)
    ]
    | inr (gt, e) ↦ absurd (omega arith)
  ]
