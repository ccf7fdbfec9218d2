-- ===== src/Adapters/LmStudio/Catalog.antt =====
-- adapters/providers/lmstudio.py: the loaded context, the model catalog and the health that
-- LM Studio's answers give. An answer is the payload of a request, or its failure.
pub mod Bounds
use local_agent_runtime.Base.{
  ℕ, zero, suc, ◌≤◌, ◌<◌, String, Text, codes, string_of, ◌≡◌, Bool, true, false, not, ◌&&◌, ◌||◌,
  Option, none, some, List, [], ◌∷◌, ◌++◌, map, arith, leb, ltb, ◌==◌, if◌then◌else◌, length,
  is_empty, any, all, keep, member, same_text, str_eq, is_some, Option-cases, Bool-cases, inl, inr,
  All, All-append,
}
use local_agent_runtime.Failure.{Failure, Result, ok, err, runtime_failure, ◌>>=◌, ◌>>◌, raise_if}
use local_agent_runtime.Json.{Json, Fields}
use local_agent_runtime.Json.Read.{
  get_or_null, count_of, text_of, fields_of, list_of, equals_text, need,
}
use local_agent_runtime.Contracts.{ContextWindow, unknown_window, ModelProfile}
use local_agent_runtime.Contracts.Discovery.{
  HealthStatus, available, unavailable, inconclusive, ProviderHealth,
}
use local_agent_runtime.Context.Estimate.{at_most}

abbrev pub has_id : (model : String) → Option Fields → Bool
has_id model none = false
has_id model (some instance) = equals_text (get_or_null "id" instance) model

-- Whether a model's entry or one of its instances has the identity.
abbrev pub owns : (model : String) → Fields → List Json → Bool
owns model item instances =
    equals_text (get_or_null "key" item) model
    || any (λ instance. has_id model (fields_of instance)) instances

-- `type(length) is int and 0 < length <= 999_999_999`
unfoldable pub length_within : Option ℕ → Option ℕ
length_within none = none
length_within (some n) = if ltb 0 n && leb n 999999999 then some n else none

unfoldable pub config_length : Option Fields → Option ℕ
unfolding length_within
config_length none = none
config_length (some config) = length_within (count_of (get_or_null "context_length" config))

-- The context length of an instance.
unfoldable pub instance_length : Option Fields → Option ℕ
unfolding config_length
instance_length none = none
instance_length (some instance) = config_length (fields_of (get_or_null "config" instance))

-- The lengths of a model's instances; none where one has no valid length.
unfoldable pub instance_lengths : List Json → Option (List ℕ)
unfolding instance_length
instance_lengths [] = some []
instance_lengths (instance ∷ rest) = elim (instance_length (fields_of instance)) [
  | none ↦ none
  | some n ↦ elim (instance_lengths rest) [ none ↦ none | some ns ↦ some (n ∷ ns) ]
]

-- The instances of an entry, `none` for one that is malformed.
unfoldable pub entry_instances : Json → Option (Fields × List Json)
entry_instances value = elim (fields_of value) [
  | none ↦ none
  | some item ↦ elim (list_of (get_or_null "loaded_instances" item)) [
    | none ↦ none
    | some instances ↦ some (item, instances)
  ]
]

-- The loop over the entries: the number of those that own the model and have instances, and the
-- lengths of these.
unfoldable pub owned_lengths : (model : String) → List Json → Option (ℕ × List ℕ)
unfolding entry_instances instance_lengths
owned_lengths model [] = some (0, [])
owned_lengths model (value ∷ rest) =
    let later = owned_lengths model rest in
    elim (entry_instances value) [
      | none ↦ none
      | some (item, instances) ↦
          if not (owns model item instances) || is_empty instances
          then later
          else elim (instance_lengths instances) [
            | none ↦ none
            | some lengths ↦ elim later [
              | none ↦ none
              | some (owners, others) ↦ some (suc owners, lengths ++ others)
            ]
          ]
    ]

-- `min(lengths)`
abbrev pub least_length : ℕ → List ℕ → ℕ
least_length n [] = n
least_length n (k ∷ ks) = at_most n (least_length k ks)

-- `owners != 1 or not lengths`
unfoldable pub sole_length : Option (ℕ × List ℕ) → Option ℕ
sole_length none = none
sole_length (some (owners, [])) = none
sole_length (some (owners, n ∷ ns)) = if owners == 1 then some (least_length n ns) else none

-- `_loaded_context_length`
unfoldable pub loaded_context_length : Json → (model : String) → Option ℕ
unfolding owned_lengths sole_length
loaded_context_length native model = elim (list_of native) [
  | none ↦ none
  | some entries ↦
      if ltb 512 (length entries) then none else sole_length (owned_lengths model entries)
]

-- `context_window`
unfoldable pub lmstudio_context_window : ModelProfile → Result Fields → ContextWindow
lmstudio_context_window profile (err e) = unknown_window
lmstudio_context_window profile (ok payload) =
    elim (loaded_context_length (get_or_null "models" payload) profile.model) [
      | none ↦ unknown_window
      | some n ↦ record { tokens = some n; source = "provider_loaded" }
    ]

-- The identity of a catalog's item, if it is one.
item_id : Option Fields → List Text
item_id none = []
item_id (some item) = elim (text_of (get_or_null "id" item)) [
  | none ↦ []
  | some id ↦ if ltb 0 (length id) && leb (length id) 256 then id ∷ [] else []
]

unfoldable pub catalog_ids : List Json → List Text
unfolding item_id
catalog_ids [] = []
catalog_ids (item ∷ rest) = item_id (fields_of item) ++ catalog_ids rest

abbrev pub invalid_catalog : Failure
invalid_catalog =
    runtime_failure "invalid_provider_response" "The provider returned an invalid catalog" 502

-- The order of texts by code points, and a set of texts as the sorted list of its elements.
abbrev pub text_before : Text → Text → Bool
text_before [] [] = false
text_before [] (c ∷ t) = true
text_before (c ∷ s) [] = false
text_before (a ∷ s) (b ∷ t) = ltb a b || a == b && text_before s t

abbrev pub insert_text : Text → List Text → List Text
insert_text s [] = s ∷ []
insert_text s (t ∷ ts) =
    let rest = insert_text s ts in
    if same_text s t then t ∷ ts else if text_before s t then s ∷ t ∷ ts else t ∷ rest

abbrev pub sorted_set : List Text → List Text
sorted_set [] = []
sorted_set (s ∷ ss) = insert_text s (sorted_set ss)

abbrev pub take : {A : Type 0} → ℕ → List A → List A
take zero xs = []
take (suc n) [] = []
take (suc n) (x ∷ xs) = x ∷ take n xs

-- `_catalog`
unfoldable pub lmstudio_catalog : Result Fields → Result (List Text)
unfolding catalog_ids
lmstudio_catalog answer = do
  payload ← answer
  items ← need invalid_catalog (list_of (get_or_null "data" payload))
  ok (take 512 (sorted_set (catalog_ids items)))

abbrev failure_code : Failure → Option String
failure_code (runtime_failure code message status) = some code
failure_code _ = none

-- `health`; a failure that is none of the runtime's passes through.
unfoldable pub lmstudio_health : ModelProfile → Result (List Text) → Result ProviderHealth
lmstudio_health profile (ok models) =
    let matched = any (same_text (codes profile.model)) models in
    ok (record {
      status = if matched then available else inconclusive;
      installed = some true;
      authenticated = none;
      compatible = some matched;
      detail_code =
          some (if matched then "protocol_not_qualified" else "configured_model_not_in_catalog");
      effective_model = none;
    })
lmstudio_health profile (err e) = elim (failure_code e) [
  | none ↦ err e
  | some code ↦ ok (record {
    status = unavailable;
    installed = some false;
    authenticated = none;
    compatible = none;
    detail_code = some code;
    effective_model = none;
  })
]
