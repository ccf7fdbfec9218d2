-- ===== src/Service/Listing.antt =====
-- `model_options` of service.py: the options of a profile that resolve against its provider's
-- catalog now.
use local_agent_runtime.Base.{
  String, Bool, true, false, not, ◌&&◌, Option, none, some, List, [], ◌∷◌, has_key, keys, is_empty,
  lookup, if◌then◌else◌, str_eq,
}
use local_agent_runtime.Failure.{
  Result, ok, err, runtime_failure, timed_out, cancelled, crash, not_found, ◌>>=◌, ◌>>◌, raise_if,
}
use local_agent_runtime.Contracts.{
  ReasoningEffort, ModelProfile, ProviderConnection, DiscoveredModel, ModelDiscovery,
}
use local_agent_runtime.Service.{Service, is_enabled}
use local_agent_runtime.Service.Create.{Surroundings, item}
use local_agent_runtime.Service.ModelOptions.{option_policies, resolved_option}

pub record ListedOption : Type 0 where
  pub id : String
  pub display_name : String
  pub efforts : List ReasoningEffort
  pub default : Option ReasoningEffort
  pub qualified_tasks : List String
  pub loaded : Option Bool

-- Without `checked_at`, which is the clock's.
pub record ModelOptions : Type 0 where
  pub profile_id : String
  pub supported : Bool
  pub detail_code : Option String
  pub options : List ListedOption

-- `except Exception`; the time limit of the probe is one, a cancellation is none.
catalog_or_none : Result ModelDiscovery → Result ModelDiscovery
catalog_or_none (ok discovery) = ok discovery
catalog_or_none (err cancelled) = err cancelled
catalog_or_none (err _) = ok (record {
  supported = true;
  models = [];
  detail_code = some "catalog_unavailable";
  loaded_models = none;
  details = [];
})

-- `next(item for item in discovery.details if item.model == derived.model)`
first_model : String → List DiscoveredModel → Result DiscoveredModel
first_model model [] = err (crash "StopIteration")
first_model model (m ∷ ms) = if str_eq m.model model then ok m else first_model model ms

listed : String → ModelProfile → DiscoveredModel → ListedOption
listed id derived found = record {
  id = id;
  display_name = found.display_name;
  efforts = derived.reasoning_efforts;
  default = derived.default_reasoning_effort;
  qualified_tasks = derived.qualified_tasks;
  loaded = found.loaded;
}

module _ (env : Surroundings) (connection : ProviderConnection) (profile : ModelProfile)
    (discovery : ModelDiscovery) where
  resolved : String → Result ModelProfile
  unfolding resolved_option
  resolved id =
      resolved_option env.option_id_of (λ p. (env.factory connection p).reasoning_efforts) profile
        id none (ok discovery)

  -- `except RuntimeFailure: continue`
  option_of : String → Result ModelProfile → Result (Option ListedOption)
  unfolding first_model listed
  option_of id (ok derived) = do
    found ← first_model derived.model discovery.details
    ok (some (listed id derived found))
  option_of id (err (runtime_failure _ _ _)) = ok none
  option_of id (err timed_out) = err timed_out
  option_of id (err cancelled) = err cancelled
  option_of id (err (crash name)) = err (crash name)

  added : Option ListedOption → List ListedOption → List ListedOption
  added none rest = rest
  added (some option) rest = option ∷ rest

  unfoldable pub listed_options : List String → Result (List ListedOption)
  unfolding resolved option_of added
  listed_options [] = ok []
  listed_options (id ∷ ids) = do
    option ← option_of id (resolved id)
    rest ← listed_options ids
    ok (added option rest)

-- `discovery.detail_code or (…)`
shown_code : ModelDiscovery → Option String
shown_code discovery =
    if is_set discovery.detail_code
    then discovery.detail_code
    else if not (is_empty discovery.models) && is_empty discovery.details
    then some "model_kind_unknown"
    else none
  where
    is_set : Option String → Bool
    is_set none = false
    is_set (some code) = not (str_eq code "")

-- `model_options`; a `profile_id` that is no `str` is `none`.
unfoldable pub model_options : Surroundings → Service → Option String → Result ModelOptions
unfolding catalog_or_none option_policies shown_code
model_options env sv none = err (not_found "The profile does not exist")
model_options env sv (some id) = do
  raise_if (not (has_key id sv.configuration.profiles)) (not_found "The profile does not exist")
  raise_if (not (is_enabled sv id)) (not_found "The profile does not exist")
  profile ← item (lookup id sv.configuration.profiles)
  connection ← item (lookup profile.provider_id sv.configuration.providers)
  discovery ← catalog_or_none (env.catalog connection profile)
  options ←
      listed_options env connection profile discovery
        (keys (option_policies env.option_id_of profile discovery))
  ok (record {
    profile_id = id;
    supported = discovery.supported;
    detail_code = shown_code discovery;
    options = options;
  })
