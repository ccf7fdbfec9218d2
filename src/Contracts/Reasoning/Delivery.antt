-- ===== src/Contracts/Reasoning/Delivery.antt =====
-- The efforts that a profile resolves to, against what its route delivers.
use mathlib.Core.Path.{subst}
use local_agent_runtime.Base.{
  String, ◌≡◌, sym, Bool, true, false, not, List, [], ◌∷◌, Bool-cases, inl, inr, if◌then◌else◌, any,
  keep, is_empty,
}
use local_agent_runtime.Failure.{Result, ok, err, ◌>>◌, >>=-eq-ok, ok-injective, raise_if}
use local_agent_runtime.Contracts.Efforts.{
  ReasoningEffort, effort_order, effort_eq, effort_eq_iff, has_effort,
}
use local_agent_runtime.Contracts.{ModelProfile}
use local_agent_runtime.Contracts.Reasoning.{
  ordered, declared_or_verified, has_default, resolve_efforts, unsupported_default,
}

module _ (p : ReasoningEffort → Bool) (e : ReasoningEffort) where
  has_effort-keep : (es : List ReasoningEffort) → has_effort e (keep p es) ≡ true → p e ≡ true
  has_effort-keep [] h = cc
  has_effort-keep (x ∷ xs) h = elim (Bool-cases (p x)) [
    | inr dropped ↦ has_effort-keep xs (rw dropped at h)
    | inl kept ↦ elim (Bool-cases (effort_eq x e)) [
      | inl same ↦ subst (λ x. p x ≡ true) ((effort_eq_iff x e).0 same) kept
      | inr other ↦ has_effort-keep xs (rw (kept, other) at h)
    ]
  ]

  has_effort-any :
      (es : List ReasoningEffort)
      → any (λ x. not (p x)) es ≡ false
      → has_effort e es ≡ true
      → p e ≡ true
  has_effort-any [] none_lost h = cc
  has_effort-any (x ∷ xs) none_lost h = elim (Bool-cases (p x)) [
    | inr lost ↦ cc (rw lost at none_lost)
    | inl held ↦ elim (Bool-cases (effort_eq x e)) [
      | inl same ↦ subst (λ x. p x ≡ true) ((effort_eq_iff x e).0 same) held
      | inr other ↦ has_effort-any xs (rw held at none_lost) (rw other at h)
    ]
  ]

module _ (profile : ModelProfile) (transport : List ReasoningEffort)
    (verified : List (String × List ReasoningEffort)) where
  declared_or_verified-delivered :
      (efforts : List ReasoningEffort)
      → declared_or_verified profile transport verified ≡ ok efforts
      → is_empty profile.reasoning_efforts ≡ false
      → (e : ReasoningEffort) → has_effort e efforts ≡ true
      → has_effort e transport ≡ true
  unfolding declared_or_verified ordered
  declared_or_verified-delivered efforts h declared e held =
      let test : Result (List ReasoningEffort) =
        if any (λ x. not (has_effort x transport)) profile.reasoning_efforts
        then err local_agent_runtime.Contracts.Reasoning.undeliverable
        else ok (ordered profile.reasoning_efforts) in
      let h' : test ≡ ok efforts = rw declared at h in
      elim (Bool-cases (any (λ x. not (has_effort x transport)) profile.reasoning_efforts)) [
        | inl lost ↦ cc (rw lost at h')
        | inr delivered ↦
            has_effort-any (λ x. has_effort x transport) e profile.reasoning_efforts delivered
              (has_effort-keep (λ x. has_effort x profile.reasoning_efforts) e effort_order
                (subst (λ es. has_effort e es ≡ true) (sym (ok-injective (rw delivered at h')))
                  held))
      ]

  -- A profile that declares efforts may request only efforts that its route delivers, and its
  -- default effort, if it has one, is among those it may request.
  pub resolve_efforts-delivered :
      (efforts : List ReasoningEffort)
      → resolve_efforts profile transport verified ≡ ok efforts
      → is_empty profile.reasoning_efforts ≡ false
      → ((e : ReasoningEffort) → has_effort e efforts ≡ true → has_effort e transport ≡ true)
        × (has_default profile.default_reasoning_effort efforts ≡ true)
  unfolding resolve_efforts
  resolve_efforts-delivered efforts h declared =
      let (found, made, rest) =
        >>=-eq-ok (declared_or_verified profile transport verified)
          (λ efforts.
            raise_if (not (has_default profile.default_reasoning_effort efforts))
              unsupported_default
            >> ok efforts)
          h in
      elim (Bool-cases (has_default profile.default_reasoning_effort found)) [
        | inr lost ↦ cc (rw lost at rest)
        | inl held ↦
            let same : found ≡ efforts = ok-injective (rw held at rest) in
            subst
              (λ es.
                ((e : ReasoningEffort) → has_effort e es ≡ true → has_effort e transport ≡ true)
                × (has_default profile.default_reasoning_effort es ≡ true))
              same (declared_or_verified-delivered found made declared, held)
      ]
