-- ===== src/Embeddings/Service/Limits.antt =====
-- What `embed` sends to a provider is within the limits of its profile.
use mathlib.Core.Path.{subst, ap₂}
use local_agent_runtime.Base.{
  ℕ, ◌+◌, ◌≤◌, Text, ◌≡◌, refl, ap, sym, ◌∙◌, suc, false, ◌&&◌, Option, none, some, List, [], ◌∷◌,
  ◌++◌, arith, Bool-cases, inl, inr, leb, ltb, length, length-append, All, map, sum_of, is_blank,
}
use local_agent_runtime.Failure.{
  ok, invalid_request, ◌>>=◌, ◌>>◌, >>=-eq-ok, ok-injective, raise_if,
}
use local_agent_runtime.Embeddings.{EmbeddingLimits}
use local_agent_runtime.Embeddings.Service.{prepare, prepare_all, prepared_batch}

-- An input that a profile accepts: not blank, and within the limit behind the prefix.
pub record IsAccepted (prefix : Text) (max_input_chars : ℕ) (input : Text) : Type 0 where
  pub not_blank : is_blank input ≡ false
  pub short : length (prefix ++ input) ≤ max_input_chars

-- The texts are the given inputs in their order, each behind the prefix.
pub record IsPrepared (prefix : Text) (max_input_chars : ℕ) (inputs : List (Option Text))
    (texts : List Text) : Type 0 where
  pub given : List Text
  pub all_given : inputs ≡ map some given
  pub prefixed : texts ≡ map (λ input. prefix ++ input) given
  pub accepted : All (IsAccepted prefix max_input_chars) given

prepare-IsAccepted :
    (prefix : Text) (bound : ℕ) (s : Option Text) (text : Text)
    → prepare prefix bound s ≡ ok text
    → (input : Text) × (s ≡ some input) × (text ≡ prefix ++ input) × IsAccepted prefix bound input
unfolding prepare
prepare-IsAccepted prefix bound none text h = cc
prepare-IsAccepted prefix bound (some s) text h = elim (Bool-cases (is_blank s)) [
  | inl blank ↦ cc (rw blank at h)
  | inr shown ↦ elim (Bool-cases (ltb bound (length prefix + length s))) [
    | inl over ↦ cc (rw (shown, over) at h)
    | inr fits ↦ (
      s,
      refl,
      sym (ok-injective (rw (shown, fits) at h)),
      record { not_blank = shown; short = ground (arith, length-append prefix s) },
    )
  ]
]

prepare_all-IsPrepared :
    (prefix : Text) (bound : ℕ) (inputs : List (Option Text)) (texts : List Text)
    → prepare_all prefix bound inputs ≡ ok texts
    → IsPrepared prefix bound inputs texts
unfolding prepare_all
prepare_all-IsPrepared prefix bound [] texts h = record {
  given = [];
  all_given = refl;
  prefixed = sym (ok-injective h);
  accepted = tt;
}
prepare_all-IsPrepared prefix bound (s ∷ inputs) texts h =
    let (text, one, h₁) =
      >>=-eq-ok (prepare prefix bound s)
        (λ text. prepare_all prefix bound inputs >>= λ rest. ok (text ∷ rest)) h in
    let (rest, others, h₂) =
      >>=-eq-ok (prepare_all prefix bound inputs) (λ rest. ok (text ∷ rest)) h₁ in
    let (input, is_given, made, accepted) = prepare-IsAccepted prefix bound s text one in
    let later = prepare_all-IsPrepared prefix bound inputs rest others in
    record {
      given = input ∷ later.given;
      all_given = ap₂ ◌∷◌ is_given later.all_given;
      prefixed = sym (ok-injective h₂) ∙ ap₂ ◌∷◌ made later.prefixed;
      accepted = (accepted, later.accepted);
    }

IsPrepared-length :
    {prefix : Text} {bound : ℕ} {inputs : List (Option Text)} {texts : List Text}
    → IsPrepared prefix bound inputs texts
    → length texts ≡ length inputs
IsPrepared-length {prefix} p = rw (p.prefixed, p.all_given) (same p.given)
  where
    same :
        (given : List Text)
        → length (map (λ input. prefix ++ input) given) ≡ length (map some given)
    same [] = refl
    same (x ∷ xs) = ap suc (same xs)

-- A batch that is sent consists of its inputs in their order, each behind the profile's prefix:
-- every input is a text that is not blank and fits the limit of one text behind the prefix; there
-- is at least one input and at most as many as a batch may have; and the characters sent are
-- within the limit of the batch.
pub prepared_batch-IsPrepared :
    (prefix : Text) (limits : EmbeddingLimits) (inputs : List (Option Text)) (texts : List Text)
    → prepared_batch prefix limits inputs ≡ ok texts
    → IsPrepared prefix limits.max_input_chars inputs texts
      × (1 ≤ length texts)
      × (length texts ≤ limits.batch_size)
      × (sum_of length texts ≤ limits.max_batch_chars)
unfolding prepared_batch
prepared_batch-IsPrepared prefix limits inputs texts h =
    elim (Bool-cases (leb 1 (length inputs) && leb (length inputs) limits.batch_size)) [
      | inr outside ↦ cc (rw outside at h)
      | inl within ↦
          let (found, made, h₁) =
            >>=-eq-ok (prepare_all prefix limits.max_input_chars inputs)
              (λ prepared.
                raise_if (ltb limits.max_batch_chars (sum_of length prepared))
                  (invalid_request "Embedding batch exceeds its total input limit")
                >> ok prepared)
              (rw within at h) in
          let prepared = prepare_all-IsPrepared prefix limits.max_input_chars inputs found made in
          let count = IsPrepared-length prepared in
          elim (Bool-cases (ltb limits.max_batch_chars (sum_of length found))) [
            | inl over ↦ cc (rw over at h₁)
            | inr fits ↦
                subst
                  (λ ts.
                    IsPrepared prefix limits.max_input_chars inputs ts
                    × (1 ≤ length ts)
                    × (length ts ≤ limits.batch_size)
                    × (sum_of length ts ≤ limits.max_batch_chars))
                  (ok-injective (rw fits at h₁))
                  (prepared, ground (arith, count), ground (arith, count), ground arith)
          ]
    ]
