-- ===== src/Service/Tests.antt =====
-- A service with one profile: a session is created, answered, continued and canceled; and the
-- profile is asked to be disabled.
use local_agent_runtime.Base.{
  String, codes, is_blank, ◌≡◌, refl, true, false, none, some, List, [], ◌∷◌, map, values, length,
  ◌≤◌, All,
}
use local_agent_runtime.Failure.{ok, err, runtime_failure}
use local_agent_runtime.Json.{null, bool, str}
use local_agent_runtime.Contracts.{
  local, ProviderConnection, ModelProfile, default_limits, RuntimeConfiguration,
}
use local_agent_runtime.Context.Estimate.Prompt.{estimate_prompt_chars}
use local_agent_runtime.Session.{SessionRecord, SessionEvent, add_event}
use local_agent_runtime.Session.Identifiers.{is_task_code}
use local_agent_runtime.Session.Host.{valid}
use local_agent_runtime.Service.{
  running_count, Service, is_enabled, ensure_schedulable, schedule, with_record,
}
use local_agent_runtime.Service.Create.{
  selected_profile, Surroundings, NewSession, admit, evict, build_record,
}
use local_agent_runtime.Service.Opening.{create_session}
use local_agent_runtime.Service.Requests.{cancel, requested_effort}
use local_agent_runtime.Service.Steps.{
  create_step, cancel_step, activation_step, Reachable, just_started, then_step,
}
use local_agent_runtime.Service.Steps.Logged.{AllLogged, Reachable-AllLogged}
use local_agent_runtime.Service.Steps.Capacity.{Reachable-sessions}
use local_agent_runtime.Service.Steps.Running.{Reachable-running_count}
use local_agent_runtime.Service.Steps.Enabled.{Reachable-is_enabled}
use local_agent_runtime.Service.Activation.{
  Activation, start_service, set_adapter_activation, activation_blocker, use_blocker,
}
use local_agent_runtime.Service.Activation.Policy.{Policy, set_adapter_activation-Policy}

abbrev connection : ProviderConnection
connection = record {
  id = "lmstudio";
  driver = "lmstudio";
  processing = local;
  command = none;
  endpoint = some "http://127.0.0.1:1234";
  credential_ref = none;
  upstream = none;
}

abbrev profile_named : String → ModelProfile
profile_named id = record {
  id = id;
  provider_id = "lmstudio";
  model = "qwen";
  allow_external_processing = false;
  allow_private_processing = true;
  limits = default_limits;
  qualified_tasks = [];
  reasoning_efforts = [];
  default_reasoning_effort = none;
  model_options = [];
  catalog_model_tasks = [];
}

abbrev configuration : RuntimeConfiguration
configuration = record {
  providers = ("lmstudio", connection) ∷ [];
  profiles = ("small", profile_named "small") ∷ ("spare", profile_named "spare") ∷ [];
  default_profile = "small";
  task_routes = ("summary", "small") ∷ [];
  managed_profiles = ("small", true) ∷ ("spare", true) ∷ [];
}

abbrev environment : Surroundings
environment = record {
  validators = record {
    loads = λ raw. none;
    validate = λ value schema. valid;
    draft_validate = λ value schema. valid;
    check_schema = λ schema. valid;
  };
  factory = λ connection profile. record {
    reasoning_efforts = [];
    token_streaming = false;
    context_window = none;
    prompt_chars = none;
    complete = λ invocation.
        err (runtime_failure "provider_unavailable" "The selected provider is unavailable" 503);
    complete_streaming = none;
  };
  catalog = λ connection profile. ok (record {
    supported = false;
    models = [];
    detail_code = none;
    loaded_models = none;
    details = [];
  });
  option_id_of = λ profile_id model. "model-000000000000000000000000";
  read_selection = λ default. ok default;
}

abbrev empty : Service
empty = record { configuration = configuration; sessions = []; activation_state = [] }

abbrev arguments : NewSession
arguments = record {
  prompt = str (codes "hello");
  tools = [];
  instructions = null;
  profile_id = none;
  task_code = some "summary";
  private_processing = bool true;
  allow_external_processing = bool false;
  output_schema = none;
  reasoning_effort = null;
  model_option_id = none;
}

abbrev created_table : Service
created_table = (create_session environment 5 "s1" arguments empty).1

abbrev canceled_table : Service
canceled_table = (cancel environment.validators 9 none "s1" created_table).1

abbrev event_types : SessionRecord → List String
event_types s = map (λ (e : SessionEvent). e.type) s.events

created-events :
    map event_types (values created_table.sessions)
    ≡ ("session_created" ∷ "provider_started" ∷ []) ∷ []
unfolding create_session admit is_blank is_task_code is_enabled evict build_record requested_effort
    add_event estimate_prompt_chars ensure_schedulable schedule
created-events = refl

canceled-events :
    map event_types (values canceled_table.sessions)
    ≡ ("session_created" ∷ "provider_started" ∷ "session_canceled" ∷ []) ∷ []
unfolding create_session admit is_blank is_task_code is_enabled evict build_record requested_effort
    add_event estimate_prompt_chars ensure_schedulable schedule cancel with_record
canceled-events = refl

abbrev port : Activation
port = record { stored = []; write = λ state. ok tt }

start_service-started : start_service configuration (some port) ≡ ok empty
unfolding start_service is_enabled
start_service-started = refl

-- The spare profile is disabled between the two requests.
abbrev disabled_table : Service
disabled_table =
    (set_adapter_activation environment (some port) 7 (some "spare") (some false) created_table).1

disabled-state : disabled_table.activation_state ≡ ("spare", false) ∷ []
unfolding create_session admit is_blank is_task_code is_enabled evict build_record requested_effort
    add_event estimate_prompt_chars ensure_schedulable schedule set_adapter_activation
    activation_blocker use_blocker selected_profile
disabled-state = refl

abbrev last_table : Service
last_table = (cancel environment.validators 9 none "s1" disabled_table).1

last-Reachable : Reachable last_table
last-Reachable =
    then_step
      (then_step
        (then_step (just_started configuration (some port) start_service-started)
          (create_step environment 5 "s1" arguments))
        (activation_step environment (some port) 7 (some "spare") (some false)))
      (cancel_step environment.validators 9 none "s1")

Reachable-AllLogged_example : AllLogged last_table
Reachable-AllLogged_example = Reachable-AllLogged last_table last-Reachable

Reachable-is_enabled_example :
    All
      (λ id. is_enabled last_table id ≡ true)
      (last_table.configuration.default_profile ∷ values last_table.configuration.task_routes)
Reachable-is_enabled_example = Reachable-is_enabled last_table last-Reachable

Reachable-sessions_example : length last_table.sessions ≤ 128
Reachable-sessions_example = Reachable-sessions last_table last-Reachable

Reachable-running_count_example : running_count last_table.sessions ≤ 8
Reachable-running_count_example = Reachable-running_count last_table last-Reachable

empty-Policy : Policy empty
unfolding is_enabled
empty-Policy = (refl, (refl, tt))

-- The spare profile is disabled, the default one is not.
set_adapter_activation-Policy_example :
    Policy (set_adapter_activation environment (some port) 7 (some "spare") (some false) empty).1
set_adapter_activation-Policy_example =
    set_adapter_activation-Policy environment (some port) 7 (some "spare") (some false) empty
      empty-Policy
