-- ===== src/Adapters/LmStudio/Catalog/Bounds.antt =====
-- The bounds of a loaded context.
use mathlib.Core.Path.{subst}
use local_agent_runtime.Base.{
  ℕ, ◌≤◌, String, ◌≡◌, some_eq, not, ◌||◌, Option, some, List, [], ◌∷◌, arith, Option-cases,
  Bool-cases, inl, inr, ltb, ◌==◌, length, is_empty, All, All-append,
}
use local_agent_runtime.Json.{Json, Fields}
use local_agent_runtime.Json.Read.{fields_of, list_of}
use local_agent_runtime.Adapters.LmStudio.Catalog.{
  owns, length_within, config_length, instance_length, instance_lengths, entry_instances,
  owned_lengths, least_length, sole_length, loaded_context_length,
}

abbrev IsLength : ℕ → Type 0
IsLength n = (1 ≤ n) × (n ≤ 999999999)

instance_length-IsLength :
    (instance : Option Fields) (n : ℕ) → instance_length instance ≡ some n → IsLength n
unfolding instance_length config_length length_within
instance_length-IsLength instance n h = grind arith

instance_lengths-IsLength :
    (instances : List Json) (ns : List ℕ) → instance_lengths instances ≡ some ns → All IsLength ns
unfolding instance_lengths
instance_lengths-IsLength [] ns h = subst (All IsLength) (some_eq h) tt
instance_lengths-IsLength (instance ∷ rest) ns h =
    elim (Option-cases (instance_length (fields_of instance))) [
      | inl bad ↦ cc (rw (bad, instance_lengths) at h)
      | inr (n, good) ↦ elim (Option-cases (instance_lengths rest)) [
        | inl bad ↦ cc (rw (good, bad, instance_lengths) at h)
        | inr (ks, more) ↦ subst (All IsLength) (some_eq (rw (good, more, instance_lengths) at h)) (
          instance_length-IsLength (fields_of instance) n good,
          instance_lengths-IsLength rest ks more,
        )
      ]
    ]

owned_lengths-IsLength :
    (model : String) (entries : List Json) (owners : ℕ) (ns : List ℕ)
    → owned_lengths model entries ≡ some (owners, ns)
    → All IsLength ns
unfolding owned_lengths
owned_lengths-IsLength model [] owners ns h =
    subst (λ (p : ℕ × List ℕ). All IsLength p.1) (some_eq h) tt
owned_lengths-IsLength model (value ∷ rest) owners ns h =
    elim (Option-cases (entry_instances value)) [
      | inl bad ↦ cc (rw (bad, owned_lengths) at h)
      | inr ((item, instances), found) ↦
          elim (Bool-cases (not (owns model item instances) || is_empty instances)) [
            | inl other ↦
                owned_lengths-IsLength model rest owners ns (rw (found, other, owned_lengths) at h)
            | inr owner ↦ elim (Option-cases (instance_lengths instances)) [
              | inl bad ↦ cc (rw (found, owner, bad, owned_lengths) at h)
              | inr (lengths, good) ↦ elim (Option-cases (owned_lengths model rest)) [
                | inl bad ↦ cc (rw (found, owner, good, bad, owned_lengths) at h)
                | inr ((count, others), more) ↦
                    subst (λ (p : ℕ × List ℕ). All IsLength p.1)
                      (some_eq (rw (found, owner, good, more, owned_lengths) at h))
                      (All-append IsLength lengths others
                        (instance_lengths-IsLength instances lengths good)
                        (owned_lengths-IsLength model rest count others more))
              ]
            ]
          ]
    ]

least_length-IsLength :
    (n : ℕ) (ns : List ℕ) → IsLength n → All IsLength ns → IsLength (least_length n ns)
least_length-IsLength n [] hn hs = hn
least_length-IsLength n (k ∷ ks) hn hs =
    let later = least_length-IsLength k ks hs.0 hs.1 in
    (ground (arith, hn, later), ground (arith, hn, later))

sole_length-IsLength :
    (model : String) (entries : List Json) (n : ℕ)
    → sole_length (owned_lengths model entries) ≡ some n
    → IsLength n
unfolding sole_length
sole_length-IsLength model entries n h = elim (Option-cases (owned_lengths model entries)) [
  | inl none_owned ↦ cc (rw (none_owned, sole_length) at h)
  | inr ((owners, []), owned) ↦ cc (rw (owned, sole_length) at h)
  | inr ((owners, k ∷ ks), owned) ↦
      let all = owned_lengths-IsLength model entries owners (k ∷ ks) owned in
      elim (Bool-cases (owners == 1)) [
        | inr several ↦ cc (rw (owned, several, sole_length) at h)
        | inl sole ↦
            subst IsLength (some_eq (rw (owned, sole, sole_length) at h))
              (least_length-IsLength k ks all.0 all.1)
      ]
]

-- A context that LM Studio is taken to have loaded is a positive count of at most 999,999,999
-- tokens.
pub loaded_context_length-bounds :
    (native : Json) (model : String) (n : ℕ)
    → loaded_context_length native model ≡ some n
    → (1 ≤ n) × (n ≤ 999999999)
unfolding loaded_context_length
loaded_context_length-bounds native model n h = elim (Option-cases (list_of native)) [
  | inl bad ↦ cc (rw (bad, loaded_context_length) at h)
  | inr (entries, listed) ↦ elim (Bool-cases (ltb 512 (length entries))) [
    | inl over ↦ cc (rw (listed, over, loaded_context_length) at h)
    | inr within ↦
        sole_length-IsLength model entries n (rw (listed, within, loaded_context_length) at h)
  ]
]
