-- ===== src/Service/ModelOptions.antt =====
-- `_resolved_model_option` and `_model_option_policies` of service.py: a model that a session may
-- ask for, held to what its provider offers and its adapter delivers. SHA-256 is a parameter.
use local_agent_runtime.Base.{
  ℕ, String, Text, codes, Bool, true, false, not, ◌&&◌, ◌||◌, Option, none, some, List, [], ◌∷◌,
  leb, ◌==◌, if◌then◌else◌, all, any, keep, is_empty, length, str_eq, same_text, lookup, put,
  member,
}
use local_agent_runtime.Failure.{
  Failure, Result, ok, err, runtime_failure, crash, timed_out, invalid_request, ◌>>=◌, ◌>>◌,
  raise_if,
}
use local_agent_runtime.Contracts.{
  ReasoningEffort, has_effort, ModelKind, reasoning, ModelProfile, ModelOptionPolicy,
  DiscoveredModel, ModelDiscovery,
}

abbrev pub is_reasoning : ModelKind → Bool
is_reasoning reasoning = true
is_reasoning _ = false

abbrev pub catalog_unavailable : Failure
catalog_unavailable =
    runtime_failure "model_catalog_unavailable" "The model catalog is unavailable" 503

abbrev pub catalog_timed_out : Failure
catalog_timed_out = runtime_failure "model_catalog_unavailable" "The model catalog timed out" 503

abbrev pub option_unavailable : Failure
option_unavailable =
    runtime_failure "model_option_unavailable" "The selected model option is no longer available"
      409

abbrev pub option_incompatible : String → Failure
option_incompatible message = runtime_failure "model_option_incompatible" message 409

-- How the adapter's catalog comes back; a cancellation goes on as it is.
discovered : Result ModelDiscovery → Result ModelDiscovery
discovered (ok discovery) = ok discovery
discovered (err timed_out) = err catalog_timed_out
discovered (err local_agent_runtime.Failure.cancelled) = err local_agent_runtime.Failure.cancelled
discovered (err (runtime_failure _ _ _)) = err catalog_unavailable
discovered (err (crash _)) = err catalog_unavailable

is_hex : ℕ → Bool
is_hex c = (leb b'0' c && leb c b'9') || (leb b'a' c && leb c b'f')

-- `model-[a-f0-9]{24}`
unfoldable pub is_option_id : Text → Bool
unfolding is_hex
is_option_id (a ∷ b ∷ c ∷ d ∷ e ∷ f ∷ digest) =
    same_text (a ∷ b ∷ c ∷ d ∷ e ∷ f ∷ []) (codes "model-")
    && length digest == 24
    && all is_hex digest
is_option_id _ = false

-- `sha256` is given the profile and the model and returns the first 24 hexadecimal digits with
-- the prefix `model-`.
module _ (option_id_of : (profile_id model : String) → String) where
  catalog_policies :
      ModelProfile
      → List DiscoveredModel
      → List (String × ModelOptionPolicy)
      → List (String × ModelOptionPolicy)
  catalog_policies profile [] found = found
  catalog_policies profile (item ∷ items) found =
      let id = option_id_of profile.id item.model in
      catalog_policies profile items (
        if is_reasoning item.kind
        then put id
            (record {
              id = id;
              model = item.model;
              qualified_tasks = profile.catalog_model_tasks;
              reasoning_efforts = profile.reasoning_efforts;
              default_reasoning_effort = profile.default_reasoning_effort;
            })
            found
        else found)

  -- `_model_option_policies`
  unfoldable pub option_policies : ModelProfile → ModelDiscovery → List (String × ModelOptionPolicy)
  unfolding catalog_policies
  option_policies profile discovery =
      if not (is_empty profile.model_options)
      then profile.model_options
      else if is_empty profile.catalog_model_tasks
      then []
      else catalog_policies profile discovery.details []

find_model : String → List DiscoveredModel → Option DiscoveredModel
find_model model [] = none
find_model model (item ∷ items) =
    if str_eq item.model model && is_reasoning item.kind then some item else find_model model items

-- The efforts of a policy, or those of the catalog where it names none.
abbrev pub policy_efforts : ModelOptionPolicy → DiscoveredModel → List ReasoningEffort
policy_efforts policy item =
    if is_empty policy.reasoning_efforts then item.reasoning_efforts else policy.reasoning_efforts

-- The efforts that the catalog allows; a configured policy beyond them is refused.
unfoldable pub allowed_efforts :
    ModelProfile → DiscoveredModel → List ReasoningEffort → Result (List ReasoningEffort)
allowed_efforts profile item efforts =
    if not item.reasoning_efforts_known
    then ok efforts
    else if not (is_empty profile.model_options)
        && any (λ e. not (has_effort e item.reasoning_efforts)) efforts
    then err (option_incompatible "The model option reasoning policy is no longer supported")
    else ok (keep (λ e. has_effort e item.reasoning_efforts) efforts)

supported_default : Option ReasoningEffort → List ReasoningEffort → Option ReasoningEffort
supported_default none efforts = none
supported_default (some e) efforts = if has_effort e efforts then some e else none

first_default : ModelOptionPolicy → DiscoveredModel → Option ReasoningEffort
first_default policy item = elim policy.default_reasoning_effort [
  | none ↦ item.default_reasoning_effort
  | some e ↦ some e
]

unfoldable pub derived_profile :
    ModelProfile → ModelOptionPolicy → DiscoveredModel → List ReasoningEffort → ModelProfile
unfolding supported_default first_default
derived_profile profile policy item efforts = record profile {
  model = policy.model;
  qualified_tasks = policy.qualified_tasks;
  reasoning_efforts = efforts;
  default_reasoning_effort = supported_default (first_default policy item) efforts;
  model_options = [];
}

-- `set(a) == set(b)`
abbrev pub same_efforts : List ReasoningEffort → List ReasoningEffort → Bool
same_efforts a b = all (λ e. has_effort e b) a && all (λ e. has_effort e a) b

-- `task_code is not None and task_code not in policy.qualified_tasks`
abbrev pub is_unqualified : Option String → ModelOptionPolicy → Bool
is_unqualified none policy = false
is_unqualified (some task) policy = not (member task policy.qualified_tasks)

-- `transport` gives the efforts that the adapter of a profile delivers.
module _ (option_id_of : (profile_id model : String) → String)
    (transport : ModelProfile → List ReasoningEffort) where
  -- The last check, on what the adapter of the derived profile delivers.
  delivered : ModelProfile → Result ModelProfile
  delivered derived =
      if same_efforts (transport derived) derived.reasoning_efforts
      then ok (record derived { reasoning_efforts = transport derived })
      else err (option_incompatible "The model option reasoning policy is not supported")

  with_model :
      ModelProfile
      → Option String
      → ModelOptionPolicy
      → Option DiscoveredModel
      → Result ModelProfile
  unfolding allowed_efforts derived_profile delivered
  with_model profile task_code policy none = err option_unavailable
  with_model profile task_code policy (some item) = do
    raise_if (is_unqualified task_code policy) (
        runtime_failure "model_option_unqualified" "The model option is not qualified for this task"
          400)
    efforts ← allowed_efforts profile item (policy_efforts policy item)
    delivered (derived_profile profile policy item efforts)

  with_policy :
      ModelProfile
      → String
      → Option String
      → ModelDiscovery
      → Option ModelOptionPolicy
      → Result ModelProfile
  unfolding with_model find_model
  with_policy profile option_id task_code discovery none =
      if is_option_id (codes option_id)
      then err option_unavailable
      else err (invalid_request "The model option is unknown")
  with_policy profile option_id task_code discovery (some policy) =
      with_model profile task_code policy (find_model policy.model discovery.details)

  abbrev pub is_degraded : ModelDiscovery → Bool
  is_degraded discovery = elim discovery.detail_code [
    | none ↦ false
    | some code ↦ not (str_eq code "maintained_catalog") && is_empty discovery.details
  ]

  -- `_resolved_model_option`, on an option that is a `str` and the outcome of
  -- `discover_models`; the option's identifier is returned beside the profile there.
  unfoldable pub resolved_option :
      ModelProfile
      → (option_id : String) → Option String
      → Result ModelDiscovery
      → Result ModelProfile
  unfolding discovered with_policy option_policies
  resolved_option profile option_id task_code outcome = do
    discovery ← discovered outcome
    raise_if (not discovery.supported) (
        runtime_failure "model_catalog_unsupported" "The provider does not expose model options"
          400)
    raise_if (is_degraded discovery) catalog_unavailable
    with_policy profile option_id task_code discovery
        (lookup option_id (option_policies option_id_of profile discovery))
