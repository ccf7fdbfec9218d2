-- ===== src/Configuration/Tests.antt =====
-- A configuration that loads.
use local_agent_runtime.Base.{codes, strip, ◌≡◌, refl, true, false, none, some, [], ◌∷◌}
use local_agent_runtime.Failure.{ok}
use local_agent_runtime.Json.{Json, bool, num, str, obj, end, field}
use local_agent_runtime.Json.Read.{int_of}
use local_agent_runtime.Contracts.{ProviderConnection, ModelProfile, local, default_limits}
use local_agent_runtime.Service.Activation.{start_service}
use local_agent_runtime.Configuration.{key_identifier}
use local_agent_runtime.Configuration.Connection.{checked_endpoint, Library, Url}
use local_agent_runtime.Configuration.Load.{
  read_provider, read_providers, read_profile, permit_profile, finish_profile, read_profile_efforts,
  read_profiles, read_routes, read_policy, Loaded, read_root, read_rest, read_configuration,
  Document, load_configuration,
}
use local_agent_runtime.Configuration.Loaded.{
  IsLoaded, load_configuration-IsLoaded, load_configuration-starts,
}

abbrev loopback : Url
loopback = record {
  scheme = codes "http";
  username = none;
  password = none;
  hostname = some (codes "127.0.0.1");
  port = some 1234;
  path = codes "/v1";
  query = [];
  fragment = [];
}

abbrev library : Library
library = record {
  parse_url = λ endpoint. some loopback;
  expand = λ path. ok (record { is_absolute = true; folded_name = path; shown = path });
  environment = λ name. none;
}

abbrev sample : Json
sample = obj (
    field "version" (num (codes "1")) (
      field "providers"
        (obj (field "studio" (obj (field "driver" (str (codes "lmstudio")) end)) end))
        (field "profiles"
          (obj (
            field "main"
              (obj (
                field "provider" (str (codes "studio")) (
                  field "model" (str (codes "small"))
                    (field "allow_external_processing" (bool false) end))))
              end))
          (field "default_profile" (str (codes "main"))
            (field "task_routes" (obj (field "draft" (str (codes "main")) end)) end)))))

abbrev document : Document
document = record {
  content = some (1 ∷ []);
  has_alias = λ content. some false;
  load = λ content. some (ok sample);
}

abbrev studio : ProviderConnection
studio = record {
  id = "studio";
  driver = "lmstudio";
  processing = local;
  command = none;
  endpoint = some "http://127.0.0.1:1234/v1";
  credential_ref = none;
  upstream = none;
}

abbrev main : ModelProfile
main = record {
  id = "main";
  provider_id = "studio";
  model = "small";
  allow_external_processing = false;
  allow_private_processing = false;
  limits = default_limits;
  qualified_tasks = [];
  reasoning_efforts = [];
  default_reasoning_effort = none;
  model_options = [];
  catalog_model_tasks = [];
}

abbrev loaded : Loaded
loaded = record {
  configuration = record {
    providers = ("studio", studio) ∷ [];
    profiles = ("main", main) ∷ [];
    default_profile = "main";
    task_routes = ("draft", "main") ∷ [];
    managed_profiles = [];
  };
  embedding_profiles = [];
}

sample-loaded : load_configuration library document ≡ ok loaded
unfolding load_configuration read_configuration read_root read_providers read_provider read_profiles
    read_profile permit_profile finish_profile read_profile_efforts read_rest read_routes
    read_policy int_of key_identifier strip
sample-loaded = refl

load_configuration-IsLoaded_example : IsLoaded loaded.configuration
load_configuration-IsLoaded_example =
    load_configuration-IsLoaded library document loaded sample-loaded

load_configuration-starts_example :
    start_service loaded.configuration none
    ≡ ok (record { configuration = loaded.configuration; sessions = []; activation_state = [] })
load_configuration-starts_example = load_configuration-starts library document loaded sample-loaded

endpoint-checked :
    checked_endpoint library "lmstudio" (str (codes "http://127.0.0.1:1234/v1/"))
    ≡ ok (codes "http://127.0.0.1:1234/v1")
unfolding checked_endpoint strip
endpoint-checked = refl
