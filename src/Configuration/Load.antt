-- ===== src/Configuration/Load.antt =====
-- configuration.py: `load_configuration`. The file and the YAML loader are parameters.
use local_agent_runtime.Base.{
  ℕ, String, Text, codes, string_of, Bool, true, false, not, ◌&&◌, ◌||◌, Option, none, some, List,
  [], ◌∷◌, ltb, if◌then◌else◌, length, is_empty, any, lookup, has_key, values, pos, negsuc, ◌==◌,
}
use local_agent_runtime.Failure.{Failure, Result, ok, invalid_configuration, ◌>>=◌, ◌>>◌, raise_if}
use local_agent_runtime.Json.{Json, null, bool, str, obj, Fields, end, field}
use local_agent_runtime.Json.Read.{
  get, get_or_null, only_fields, has_fields, int_of, text_of, flag_of, need,
}
use local_agent_runtime.Contracts.{
  ProcessingClass, local, external, ProviderConnection, ModelProfile, RuntimeConfiguration,
}
use local_agent_runtime.Contracts.{ReasoningEffort}
use local_agent_runtime.Contracts.Public.{text_or_null}
use local_agent_runtime.Embeddings.{
  EmbeddingProfile, embedding_limits, embedding_profile, or_default,
}
use local_agent_runtime.Configuration.{
  supported_drivers, is_cli, has_endpoint, processing_of, said, mapping, identifier, key_identifier,
}
use local_agent_runtime.Configuration.Connection.{
  Library, is_one_of, trusted_command, checked_endpoint, credential_reference, validate_fields,
}
use local_agent_runtime.Configuration.Profile.{
  read_limits, reasoning_efforts, default_reasoning_effort, undeclared, read_model, task_codes,
  model_options_of,
}

abbrev pub allowed_fields : (driver : String) → List String
allowed_fields driver =
    if is_cli driver
    then "driver" ∷ "command" ∷ []
    else "driver" ∷ "endpoint" ∷ "credential_ref" ∷ "upstream" ∷ []

abbrev pub is_external : ProcessingClass → Bool
is_external local = false
is_external external = true

-- The value of a call that is made only under a condition, as text or `None`.
when : Bool → Result Text → Result Json
when true call = do ok (str (← call))
when false call = ok null

-- `driver in SUPPORTED_DRIVERS`
known_driver : (provider_id : String) → Json → Result String
known_driver provider_id value = do
  driver ←
      need
        (invalid_configuration
          (said ("Provider " ∷ provider_id ∷ " has an unsupported driver" ∷ [])))
        (text_of value)
  raise_if (not (is_one_of driver supported_drivers))
      (invalid_configuration (said ("Provider " ∷ provider_id ∷ " has an unsupported driver" ∷ [])))
  ok (string_of driver)

-- A text or `None` that was checked.
string_or_none : Json → Option String
string_or_none value = elim (text_of value) [ none ↦ none | some s ↦ some (string_of s) ]

-- one iteration of the loop over the providers
unfoldable pub read_provider : Library → String → Json → Result ProviderConnection
unfolding when known_driver string_or_none trusted_command checked_endpoint credential_reference
    validate_fields
read_provider library raw_id value = do
  provider_id ← key_identifier raw_id "Provider identifier"
  raw ← mapping value (said ("Provider " ∷ provider_id ∷ []))
  driver ← known_driver provider_id (get_or_null "driver" raw)
  raise_if (not (only_fields (allowed_fields driver) raw)) (
      invalid_configuration
        (said ("Provider " ∷ provider_id ∷ " contains unsupported fields" ∷ [])))
  command ← when (is_cli driver) (trusted_command library driver (get_or_null "command" raw))
  endpoint ←
      when (has_endpoint driver) (checked_endpoint library driver (get_or_null "endpoint" raw))
  credential_ref ← credential_reference driver (get_or_null "credential_ref" raw)
  validate_fields library driver (processing_of driver) command endpoint
      (text_or_null credential_ref) (get_or_null "upstream" raw)
  ok (record {
    id = provider_id;
    driver = driver;
    processing = processing_of driver;
    command = string_or_none command;
    endpoint = string_or_none endpoint;
    credential_ref = credential_ref;
    upstream = string_or_none (get_or_null "upstream" raw);
  })

unfoldable pub read_providers : Library → Fields → Result (List (String × ProviderConnection))
unfolding read_provider
read_providers library end = ok []
read_providers library (field raw_id value fs) = do
  provider ← read_provider library raw_id value
  rest ← read_providers library fs
  ok ((provider.id, provider) ∷ rest)

abbrev pub profile_fields : List String
profile_fields =
    "provider" ∷ "model" ∷ "allow_external_processing" ∷ "allow_private_processing" ∷ "limits"
    ∷ "qualified_tasks" ∷ "reasoning_efforts" ∷ "default_reasoning_effort" ∷ "model_options"
    ∷ "catalog_model_tasks" ∷ []

abbrev pub of_profile : String → String → Failure
of_profile profile_id message =
    invalid_configuration (said ("Profile " ∷ profile_id ∷ message ∷ []))

-- The effort fields of a profile, checked against each other.
unfoldable pub read_profile_efforts :
    (profile_id : String) → Fields → Result (List ReasoningEffort × Option ReasoningEffort)
unfolding reasoning_efforts default_reasoning_effort
read_profile_efforts profile_id raw = do
  efforts ← reasoning_efforts profile_id (get_or_null "reasoning_efforts" raw)
  default ← default_reasoning_effort profile_id (get_or_null "default_reasoning_effort" raw)
  raise_if (undeclared default efforts)
      (of_profile profile_id " default reasoning effort is not declared")
  ok (efforts, default)

-- The end of the loop over the profiles: the policies, the efforts and the limits.
unfoldable pub finish_profile :
    (profile_id provider_id model : String)
    → (external_allowed private_allowed : Bool) → Fields
    → Result ModelProfile
unfolding read_profile_efforts task_codes model_options_of read_limits
finish_profile profile_id provider_id model external_allowed private_allowed raw = do
  tasks ←
      task_codes (of_profile profile_id " qualified tasks are invalid") (get "qualified_tasks" raw)
  catalog_tasks ←
      task_codes (of_profile profile_id " catalog model tasks are invalid")
        (get "catalog_model_tasks" raw)
  options ← model_options_of profile_id (get_or_null "model_options" raw)
  raise_if (not (is_empty catalog_tasks) && not (is_empty options))
      (of_profile profile_id " cannot mix catalog and exact model option policies")
  efforts ← read_profile_efforts profile_id raw
  limits ← read_limits (get_or_null "limits" raw)
  ok (record {
    id = profile_id;
    provider_id = provider_id;
    model = model;
    allow_external_processing = external_allowed;
    allow_private_processing = private_allowed;
    limits = limits;
    qualified_tasks = tasks;
    reasoning_efforts = efforts.0;
    default_reasoning_effort = efforts.1;
    model_options = options;
    catalog_model_tasks = catalog_tasks;
  })

-- The provider, the model and the processing flags of a profile, and its rest.
unfoldable pub permit_profile :
    List (String × ProviderConnection) → (profile_id : String) → Fields → Result ModelProfile
unfolding identifier read_model finish_profile
permit_profile providers profile_id raw = do
  provider_id ← identifier (get_or_null "provider" raw) "Profile provider"
  provider ←
      need (of_profile profile_id " references an unknown provider") (lookup provider_id providers)
  model ← read_model (get_or_null "model" raw) (said ("Profile " ∷ profile_id ∷ " model" ∷ []))
  external_allowed ←
      need (of_profile profile_id " processing flags are invalid")
        (flag_of (get_or_null "allow_external_processing" raw))
  private_allowed ←
      need (of_profile profile_id " processing flags are invalid")
        (flag_of (or_default (get "allow_private_processing" raw) (bool false)))
  raise_if (is_external provider.processing && not external_allowed)
      (of_profile profile_id " must explicitly allow external processing")
  finish_profile profile_id provider_id model external_allowed private_allowed raw

-- one iteration of the loop over the profiles
unfoldable pub read_profile :
    List (String × ProviderConnection) → String → Json → Result ModelProfile
unfolding permit_profile
read_profile providers raw_id value = do
  profile_id ← key_identifier raw_id "Profile identifier"
  raw ← mapping value (said ("Profile " ∷ profile_id ∷ []))
  raise_if (not (only_fields profile_fields raw))
      (of_profile profile_id " contains unsupported fields")
  permit_profile providers profile_id raw

unfoldable pub read_profiles :
    List (String × ProviderConnection) → Fields → Result (List (String × ModelProfile))
unfolding read_profile
read_profiles providers end = ok []
read_profiles providers (field raw_id value fs) = do
  profile ← read_profile providers raw_id value
  rest ← read_profiles providers fs
  ok ((profile.id, profile) ∷ rest)

-- the loop over the task routes
unfoldable pub read_routes : List (String × ModelProfile) → Fields → Result (List (String × String))
unfolding identifier
read_routes profiles end = ok []
read_routes profiles (field raw_task value fs) = do
  task_code ← key_identifier raw_task "Task route"
  profile_id ← identifier value "Task route profile"
  raise_if (not (has_key profile_id profiles)) (
      invalid_configuration
        (said ("Task route " ∷ task_code ∷ " references an unknown profile" ∷ [])))
  rest ← read_routes profiles fs
  ok ((task_code, profile_id) ∷ rest)

abbrev pub embedding_fields : List String
embedding_fields =
    "provider" ∷ "model" ∷ "dimensions" ∷ "document_prefix" ∷ "query_prefix" ∷ "revision"
    ∷ "normalization" ∷ "distance_metric" ∷ "allow_external_processing" ∷ "allow_private_processing"
    ∷ "limits" ∷ []

abbrev pub limit_fields : List String
limit_fields =
    "batch_size" ∷ "max_input_chars" ∷ "max_batch_chars" ∷ "timeout_seconds" ∷ "max_response_bytes"
    ∷ []

-- one iteration of the loop over the embedding profiles
unfoldable pub read_embedding_profile :
    List (String × ProviderConnection) → String → Json → Result EmbeddingProfile
unfolding identifier embedding_limits embedding_profile
read_embedding_profile providers raw_id value = do
  profile_id ← key_identifier raw_id "Embedding profile identifier"
  raw ← mapping value "Embedding profile"
  raise_if
      (not (only_fields embedding_fields raw)
        || not (has_fields ("provider" ∷ "model" ∷ "dimensions" ∷ []) raw))
      (invalid_configuration "Embedding profile fields are invalid")
  provider_id ← identifier (get_or_null "provider" raw) "Embedding provider"
  provider ←
      need (invalid_configuration "Provider does not support embeddings")
        (lookup provider_id providers)
  raise_if (not (has_endpoint provider.driver))
      (invalid_configuration "Provider does not support embeddings")
  given ← mapping (or_default (get "limits" raw) (obj end)) "Embedding limits"
  raise_if (not (only_fields limit_fields given))
      (invalid_configuration "Embedding limits contain unsupported fields")
  limits ← embedding_limits given
  profile ← embedding_profile (codes profile_id) (codes provider_id) limits raw
  raise_if (is_external provider.processing && not profile.allow_external_processing)
      (invalid_configuration "Embedding profile must explicitly allow external processing")
  ok profile

unfoldable pub read_embedding_profiles :
    List (String × ProviderConnection) → Fields → Result (List (String × EmbeddingProfile))
unfolding read_embedding_profile
read_embedding_profiles providers end = ok []
read_embedding_profiles providers (field raw_id value fs) = do
  profile ← read_embedding_profile providers raw_id value
  rest ← read_embedding_profiles providers fs
  ok ((raw_id, profile) ∷ rest)

abbrev pub bad_managed : Failure
bad_managed = invalid_configuration "Managed profiles must name configured profiles and booleans"

unfoldable pub read_managed : List (String × ModelProfile) → Fields → Result (List (String × Bool))
read_managed profiles end = ok []
read_managed profiles (field id value fs) = do
  raise_if (not (has_key id profiles)) bad_managed
  enabled ← need bad_managed (flag_of value)
  rest ← read_managed profiles fs
  ok ((id, enabled) ∷ rest)

-- `managed.get(profile_id) is False`
abbrev pub is_disabled : List (String × Bool) → String → Bool
is_disabled managed id = elim (lookup id managed) [ none ↦ false | some enabled ↦ not enabled ]

-- The activation policy: the profiles that the service may enable and disable.
unfoldable pub read_policy :
    List (String × ModelProfile)
    → (default_profile : String) → (task_routes : List (String × String)) → Json
    → Result (List (String × Bool))
unfolding read_managed
read_policy profiles default_profile task_routes value = do
  policy ← mapping value "Activation policy"
  raise_if (not (only_fields ("managed_profiles" ∷ []) policy))
      (invalid_configuration "Activation policy fields are invalid")
  given ← mapping (or_default (get "managed_profiles" policy) (obj end)) "Managed profiles"
  managed ← read_managed profiles given
  raise_if (is_disabled managed default_profile)
      (invalid_configuration "The default profile must be enabled")
  raise_if (any (is_disabled managed) (values task_routes))
      (invalid_configuration "Task routes must be enabled")
  ok managed

-- `RuntimeConfiguration`, with the embedding profiles beside the rest
pub record Loaded : Type 0 where
  pub configuration : RuntimeConfiguration
  pub embedding_profiles : List (String × EmbeddingProfile)

abbrev pub is_version_1 : Json → Bool
is_version_1 value = elim (int_of value) [
  | none ↦ false
  | some n ↦ elim n [ pos k ↦ k == 1 | negsuc k ↦ false ]
]

abbrev pub required_fields : List String
required_fields = "version" ∷ "providers" ∷ "profiles" ∷ "default_profile" ∷ "task_routes" ∷ []

-- The fields of the root.
unfoldable pub read_root : Json → Result Fields
read_root value = do
  root ← mapping value "Configuration"
  raise_if
      (not (has_fields required_fields root)
        || not (only_fields ("embedding_profiles" ∷ "activation_policy" ∷ required_fields) root))
      (invalid_configuration "Configuration fields are invalid")
  raise_if (not (is_version_1 (get_or_null "version" root)))
      (invalid_configuration "Unsupported configuration version")
  ok root

-- What is read after the providers and the profiles.
unfoldable pub read_rest :
    Fields → List (String × ProviderConnection) → List (String × ModelProfile) → Result Loaded
unfolding identifier read_routes read_embedding_profiles read_policy
read_rest root providers profiles = do
  default_profile ← identifier (get_or_null "default_profile" root) "Default profile"
  raise_if (not (has_key default_profile profiles))
      (invalid_configuration "Default profile is unknown")
  given_routes ← mapping (get_or_null "task_routes" root) "Task routes"
  task_routes ← read_routes profiles given_routes
  given_embeddings ←
      mapping (or_default (get "embedding_profiles" root) (obj end)) "Embedding profiles"
  embedding_profiles ← read_embedding_profiles providers given_embeddings
  managed ←
      read_policy profiles default_profile task_routes
        (or_default (get "activation_policy" root) (obj end))
  ok (record {
    configuration = record {
      providers = providers;
      profiles = profiles;
      default_profile = default_profile;
      task_routes = task_routes;
      managed_profiles = managed;
    };
    embedding_profiles = embedding_profiles;
  })

-- `load_configuration`, from the document that was read
unfoldable pub read_configuration : Library → Json → Result Loaded
unfolding read_root read_providers read_profiles read_rest
read_configuration library value = do
  root ← read_root value
  given_providers ← mapping (get_or_null "providers" root) "Providers"
  providers ← read_providers library given_providers
  raise_if (is_empty providers) (invalid_configuration "At least one provider is required")
  given_profiles ← mapping (get_or_null "profiles" root) "Profiles"
  profiles ← read_profiles providers given_profiles
  raise_if (is_empty profiles) (invalid_configuration "At least one profile is required")
  read_rest root providers profiles

-- The file and `yaml`: nothing where one of them raises what `load_configuration` catches.
pub record Document : Type 0 where
  -- what `handle.read(256_001)` returns
  pub content : Option (List ℕ)
  pub has_alias : List ℕ → Option Bool
  -- `yaml.load` with `UniqueKeyLoader`, which refuses a key that is no text or is repeated
  pub load : List ℕ → Option (Result Json)

abbrev pub unreadable : Failure
unreadable = invalid_configuration "Unable to read runtime configuration"

-- `load_configuration`
unfoldable pub load_configuration : Library → Document → Result Loaded
unfolding read_configuration
load_configuration library document = do
  content ← need unreadable document.content
  raise_if (ltb 256000 (length content))
      (invalid_configuration "Runtime configuration exceeds its limit")
  alias ← need unreadable (document.has_alias content)
  raise_if alias (invalid_configuration "Configuration aliases are unsupported")
  loaded ← need unreadable (document.load content)
  root ← loaded
  read_configuration library root
