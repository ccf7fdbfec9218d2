-- ===== src/Service/Create.antt =====
-- `create_session` of service.py, with `_tools` and `selected_profile`.
pub mod Admission
use local_agent_runtime.Base.{
  ℕ, ◌+◌, String, Text, codes, Bool, true, false, not, ◌&&◌, ◌||◌, Option, none, some, List, [],
  ◌∷◌, ◌++◌, leb, ltb, if◌then◌else◌, length, is_some, is_blank, str_eq, same_text, lookup, put,
  has_key, member,
}
use local_agent_runtime.Failure.{
  Failure, Result, ok, err, runtime_failure, crash, invalid_request, ◌>>=◌, ◌>>◌, raise_if,
}
use local_agent_runtime.Json.{Json, null, bool, str, Fields, end, field}
use local_agent_runtime.Contracts.{
  ProcessingClass, local, external, ReasoningEffort, ModelProfile, ProviderConnection,
  ModelDiscovery, ToolDefinition, Message, plain_message, created,
}
use local_agent_runtime.Context.Estimate.Prompt.{estimate_prompt_chars}
use local_agent_runtime.Validation.{checked_schema}
use local_agent_runtime.Session.{SessionRecord, session_source, no_task, max_tools, add_event}
use local_agent_runtime.Session.Host.{Validators, Adapter}
use local_agent_runtime.Session.Identifiers.{is_tool_name, is_task_code}
use local_agent_runtime.Service.{Service, is_expired, is_enabled, ensure_schedulable, schedule}
use local_agent_runtime.Service.Requests.{requested_effort}
use local_agent_runtime.Service.ModelOptions.{resolved_option}

-- The arguments of `create_session`; what a caller may pass of any type is JSON, `None` is null.
pub record NewSession : Type 0 where
  pub prompt : Json
  pub tools : List ToolDefinition
  pub instructions : Json
  pub profile_id : Option String
  pub task_code : Option String
  pub private_processing : Json
  pub allow_external_processing : Json
  pub output_schema : Option Fields
  pub reasoning_effort : Json
  -- `None`; a value that is no `str`; a `str`
  pub model_option_id : Option (Option String)

-- What the runtime is given from outside.
pub record Surroundings : Type 0 where
  pub validators : Validators
  pub factory : ProviderConnection → ModelProfile → Adapter
  -- what `discover_models` of the adapter answers
  pub catalog : ProviderConnection → ModelProfile → Result ModelDiscovery
  pub option_id_of : (profile_id model : String) → String
  -- `selection.read(default)`
  pub read_selection : (default : String) → Result String

-- A dictionary's `d[k]`, where the key was checked or configured.
abbrev pub item {ℓ} : {V : Type ℓ} → Option V → Result V
item none = err (crash "KeyError")
item (some x) = ok x

prompt_text : Json → Result Text
prompt_text (str s) =
    if is_blank s then err (invalid_request "The session prompt is invalid") else ok s
prompt_text _ = err (invalid_request "The session prompt is invalid")

instructions_text : Json → Result (Option Text)
instructions_text null = ok none
instructions_text (str s) =
    if is_blank s then err (invalid_request "The session instructions are invalid") else ok (some s)
instructions_text _ = err (invalid_request "The session instructions are invalid")

flag : Json → Result Bool
flag (bool b) = ok b
flag _ = err (invalid_request "Processing flags are invalid")

-- `selected_profile`
unfoldable pub selected_profile : Surroundings → Service → Result String
selected_profile env sv = do
  id ← env.read_selection sv.configuration.default_profile
  raise_if (not (has_key id sv.configuration.profiles) || not (is_enabled sv id))
      (runtime_failure "selection_unavailable" "The selected profile is no longer configured" 503)
  ok id

-- The route of a task; a code is wanted to be well formed and configured.
task_route : Service → Option String → Result (Option String)
task_route sv none = ok none
task_route sv (some code) = do
  raise_if (not (is_task_code (codes code))) (invalid_request "The task code is invalid")
  raise_if (not (has_key code sv.configuration.task_routes))
      (invalid_request "The task route is not configured")
  ok (lookup code sv.configuration.task_routes)

conflicts : Option String → Option String → Bool
conflicts (some a) (some b) = not (str_eq a b)
conflicts _ _ = false

-- `a or b`, where an empty text is false
either : Option String → Option String → Option String
either none b = b
either (some a) b = if str_eq a "" then b else some a

or_selected : Surroundings → Service → Option String → Result String
or_selected env sv none = selected_profile env sv
or_selected env sv (some id) = ok id

-- `profile_id or routed or self.selected_profile()`
chosen_profile : Surroundings → Service → Option String → Option String → Result String
unfolding selected_profile either or_selected
chosen_profile env sv profile_id routed =
    or_selected env sv (either profile_id (either routed none))

-- The session's profile, with a model option applied if one is asked for, and the option.
optional_model :
    Surroundings
    → ProviderConnection
    → ModelProfile
    → Option String
    → Option (Option String)
    → Result (ModelProfile × Option String)
unfolding resolved_option
optional_model env connection profile task_code none = ok (profile, none)
optional_model env connection profile task_code (some none) =
    err (invalid_request "The model option is invalid")
optional_model env connection profile task_code (some (some id)) = do
  derived ←
      resolved_option env.option_id_of (λ p. (env.factory connection p).reasoning_efforts) profile
        id task_code (env.catalog connection profile)
  ok (derived, some id)

abbrev is_external : ProcessingClass → Bool
is_external external = true
is_external local = false

-- What the checks before any change of the service establish.
pub record Admitted : Type 0 where
  pub profile : ModelProfile
  pub connection : ProviderConnection
  pub option_id : Option String
  pub prompt : Text
  pub instructions : Option Text
  pub private_processing : Bool

-- `create_session` up to the eviction of old sessions.
unfoldable pub admit : Surroundings → Service → NewSession → Result Admitted
unfolding prompt_text instructions_text flag task_route conflicts chosen_profile optional_model
admit env sv args = do
  prompt ← prompt_text args.prompt
  instructions ← instructions_text args.instructions
  private_processing ← flag args.private_processing
  allow_external ← flag args.allow_external_processing
  routed ← task_route sv args.task_code
  raise_if (conflicts args.profile_id routed)
      (invalid_request "The explicit profile conflicts with the configured task route")
  selected ← chosen_profile env sv args.profile_id routed
  raise_if (not (has_key selected sv.configuration.profiles))
      (invalid_request "The session profile is unknown")
  raise_if (not (is_enabled sv selected)) (invalid_request "The session profile is disabled")
  configured ← item (lookup selected sv.configuration.profiles)
  connection ← item (lookup configured.provider_id sv.configuration.providers)
  (profile, option_id) ←
      optional_model env connection configured args.task_code args.model_option_id
  raise_if
      (is_external connection.processing
        && not (profile.allow_external_processing && allow_external))
      (runtime_failure "processing_not_allowed" "External processing is not allowed" 403)
  raise_if (ltb profile.limits.max_input_chars (length prompt))
      (invalid_request "The session input exceeds its limit")
  ok (record {
    profile = profile;
    connection = connection;
    option_id = option_id;
    prompt = prompt;
    instructions = instructions;
    private_processing = private_processing;
  })

-- `schema.get("type") != "object"`
abbrev schema_type_is_object : Fields → Bool
schema_type_is_object end = false
schema_type_is_object (field k x fs) =
    if str_eq k "type" then is_object_text x else schema_type_is_object fs
  where
    is_object_text : Json → Bool
    is_object_text (str s) = same_text s (codes "object")
    is_object_text _ = false

-- The loop of `_tools`; `names` are the names accepted so far.
checked_tools : Validators → List String → List ToolDefinition → Result (List ToolDefinition)
unfolding checked_schema
checked_tools v names [] = ok []
checked_tools v names (tool ∷ tools) = do
  raise_if (not (is_tool_name (codes tool.name)) || member tool.name names)
      (invalid_request "The tool catalog contains an invalid or duplicate name")
  raise_if (ltb 4000 (length tool.description)) (invalid_request "A tool description is invalid")
  schema ← checked_schema v tool.input_schema
  raise_if (not (schema_type_is_object schema))
      (invalid_request "Tool input schemas must describe objects")
  rest ← checked_tools v (tool.name ∷ names) tools
  ok (record tool { input_schema = schema } ∷ rest)

-- `_tools`
unfoldable pub tool_catalog : Validators → List ToolDefinition → Result (List ToolDefinition)
unfolding checked_tools
tool_catalog v tools = do
  raise_if (ltb max_tools (length tools)) (invalid_request "The tool catalog is too large")
  checked_tools v [] tools

optional_schema : Validators → Option Fields → Result (Option Fields)
unfolding checked_schema
optional_schema v none = ok none
optional_schema v (some schema) = do clean ← checked_schema v schema; ok (some clean)

opening_messages : Option Text → Text → List Message
opening_messages none prompt = plain_message "user" prompt ∷ []
opening_messages (some instructions) prompt =
    plain_message "system" instructions ∷ plain_message "user" prompt ∷ []

-- `SessionRecord(…)`
new_record :
    (now : ℕ)
    → (id : String) → NewSession
    → Admitted
    → List ToolDefinition
    → Option Fields
    → Option ReasoningEffort
    → SessionRecord
unfolding opening_messages
new_record now id args a tools schema effort = record {
  id = id;
  profile = a.profile;
  connection = a.connection;
  tools = tools;
  messages = opening_messages a.instructions a.prompt;
  private_processing = a.private_processing;
  model_option_id = a.option_id;
  task_code = args.task_code;
  output_schema = schema;
  created_at = now;
  updated_at = now;
  finished_at = none;
  output_chars = 0;
  status = created;
  events = [];
  pending_tools = [];
  tool_rounds = 0;
  provider_calls = 0;
  final_text = none;
  failure = none;
  effective_model = none;
  effective_upstream = none;
  requested_reasoning_effort = effort;
  effective_reasoning_effort = none;
  usage = [];
  validation = "pending";
  context = none;
  observed_prompt = none;
  task = no_task;
}

pub recorded : Result (Unit {0}) × SessionRecord → Result SessionRecord
recorded (err e, s) = err e
recorded (ok _, s) = ok s

-- The record of a new session, its first event in the log.
unfoldable pub build_record :
    Surroundings → (now : ℕ) → (id : String) → NewSession → Admitted → Result SessionRecord
unfolding tool_catalog optional_schema new_record recorded
build_record env now id args a = do
  tools ← tool_catalog env.validators args.tools
  schema ← optional_schema env.validators args.output_schema
  effort ←
      requested_effort (env.factory a.connection a.profile).reasoning_efforts a.profile
        args.reasoning_effort
  recorded (
      add_event now "session_created" (session_source a.profile.id args.task_code)
        (new_record now id args a tools schema effort))

-- `for old_id, old in …: del self.sessions[old_id]`
unfoldable pub evict : (now : ℕ) → List (String × SessionRecord) → List (String × SessionRecord)
evict now [] = []
evict now ((id, s) ∷ rest) =
    let later = evict now rest in if is_expired now s then later else (id, s) ∷ later
