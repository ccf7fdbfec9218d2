-- ===== src/Service/Activation.antt =====
-- The constructor of `RuntimeService`, `_activation_blocker`, `set_adapter_activation` and
-- `select_profile`. The ports for activation and selection are parameters: what they read, and
-- whether a write raises.
pub mod Policy
use local_agent_runtime.Base.{
  ℕ, ◌-◌, String, Bool, true, false, not, ◌&&◌, ◌||◌, Option, none, some, List, [], ◌∷◌, leb,
  if◌then◌else◌, any, has_key, put, values, member, str_eq,
}
use local_agent_runtime.Failure.{
  Failure, Result, ok, err, runtime_failure, timed_out, cancelled, crash, invalid_request, ◌>>=◌,
  ◌>>◌, raise_if,
}
use local_agent_runtime.Contracts.{RuntimeConfiguration}
use local_agent_runtime.Effect.{Action, modify, resume}
use local_agent_runtime.Session.{SessionRecord}
use local_agent_runtime.Service.{Service, is_running, idle_limit, is_enabled}
use local_agent_runtime.Service.Create.{Surroundings, selected_profile}

-- `ActivationPort`; the service may be given none.
pub record Activation : Type 0 where
  -- what `read` answers, a value that is no `bool` as `none`
  pub stored : List (String × Option Bool)
  pub write : List (String × Bool) → Result (Unit {0})

abbrev pub policy_changed : Failure
policy_changed = runtime_failure "activation_unavailable" "Runtime activation policy changed" 503

-- A stored entry is a Boolean for a managed profile, or the service does not start.
stored_state : RuntimeConfiguration → List (String × Option Bool) → Result (List (String × Bool))
stored_state configuration [] = ok []
stored_state configuration ((id, none) ∷ rest) = err policy_changed
stored_state configuration ((id, some value) ∷ rest) = do
  raise_if (not (has_key id configuration.managed_profiles)) policy_changed
  later ← stored_state configuration rest
  ok ((id, value) ∷ later)

pub activation_state_of : RuntimeConfiguration → Option Activation → Result (List (String × Bool))
unfolding stored_state
activation_state_of configuration none = ok []
activation_state_of configuration (some port) = stored_state configuration port.stored

-- The default profile and the profile of every task route.
abbrev pub required_profiles : RuntimeConfiguration → List String
required_profiles configuration = configuration.default_profile ∷ values configuration.task_routes

-- `__init__`
unfoldable pub start_service : RuntimeConfiguration → Option Activation → Result Service
unfolding activation_state_of
start_service configuration port = do
  state ← activation_state_of configuration port
  let sv : Service = record {
    configuration = configuration;
    sessions = [];
    activation_state = state;
  } in
      if any (λ id. not (is_enabled sv id)) (required_profiles configuration)
      then err policy_changed
      else ok sv

-- `except RuntimeFailure as exc`: a stale selection is no selection.
unless_stale : Result String → Result (Option String)
unless_stale (ok id) = ok (some id)
unless_stale (err (runtime_failure code message status)) =
    if str_eq code "selection_unavailable"
    then ok none
    else err (runtime_failure code message status)
unless_stale (err timed_out) = err timed_out
unless_stale (err cancelled) = err cancelled
unless_stale (err (crash name)) = err (crash name)

abbrev pub is_selection : String → Option String → Bool
is_selection id none = false
is_selection id (some selected) = str_eq id selected

-- A session that runs on the profile, or was used in the last half an hour.
abbrev pub uses_profile : (now : ℕ) → String → SessionRecord → Bool
uses_profile now id s =
    str_eq s.profile.id id && (is_running s.status || leb (now - s.updated_at) idle_limit)

-- What stands against disabling a profile that is enabled.
unfoldable pub use_blocker : (now : ℕ) → Service → String → Option String → Option String
use_blocker now sv id selected =
    if is_selection id selected
    then some "selected_profile"
    else if member id (values sv.configuration.task_routes)
    then some "task_route_in_use"
    else if any (uses_profile now id) (values sv.sessions)
    then some "profile_in_use"
    else none

abbrev pub is_given : Option Activation → Bool
is_given none = false
is_given (some port) = true

-- `_activation_blocker`
unfoldable pub activation_blocker :
    Surroundings → Option Activation → (now : ℕ) → Service → String → Result (Option String)
unfolding unless_stale
activation_blocker env port now sv id =
    if not (has_key id sv.configuration.managed_profiles) || not (is_given port)
    then ok (some "operator_managed")
    else if str_eq id sv.configuration.default_profile
    then ok (some "default_profile")
    else if not (is_enabled sv id)
    then ok none
    else (do selected ← unless_stale (selected_profile env sv); ok (use_blocker now sv id selected))

abbrev pub blocker_failure : String → Failure
blocker_failure code =
    runtime_failure code
      (if str_eq code "default_profile"
        then "The configured default profile cannot be disabled"
        else "The profile cannot be disabled while selected or in use")
      409

abbrev pub unknown_activation : Failure
unknown_activation = invalid_request "The activation option is unknown or invalid"

unblocked : Option String → Result (Unit {0})
unblocked none = ok tt
unblocked (some code) = err (blocker_failure code)

abbrev pub same_flag : Bool → Bool → Bool
same_flag true b = b
same_flag false b = not b

-- What is checked and written before the service changes.
pub permit_change :
    Surroundings → Activation → (now : ℕ) → String → Bool → Service → Result (Unit {0})
unfolding unblocked
permit_change env port now id enabled sv = do
  blocker ← activation_blocker env (some port) now sv id
  unblocked blocker
  port.write (put id enabled sv.activation_state)

-- The change, where the profile is not yet as it is asked for.
unfoldable pub change_activation :
    Surroundings → Activation → (now : ℕ) → String → Bool → Action Service (Unit {0})
unfolding permit_change
change_activation env port now id enabled sv =
    resume (permit_change env port now id enabled sv, sv)
      (λ _. modify (λ sv. record sv { activation_state = put id enabled sv.activation_state }))

-- `set_adapter_activation`, up to the state of the adapters that it returns; an argument that is
-- no `str` or no `bool` is `none`.
unfoldable pub set_adapter_activation :
    Surroundings
    → Option Activation
    → (now : ℕ) → Option String
    → Option Bool
    → Action Service (Unit {0})
unfolding change_activation
set_adapter_activation env port now none enabled sv = (err unknown_activation, sv)
set_adapter_activation env port now (some id) none sv = (err unknown_activation, sv)
set_adapter_activation env none now (some id) (some enabled) sv =
    if has_key id sv.configuration.managed_profiles
    then (
      err (runtime_failure "activation_unavailable" "Managed activation is unavailable" 503),
      sv,
    )
    else (err unknown_activation, sv)
set_adapter_activation env (some port) now (some id) (some enabled) sv =
    if not (has_key id sv.configuration.managed_profiles)
    then (err unknown_activation, sv)
    else if same_flag (is_enabled sv id) enabled
    then (ok tt, sv)
    else change_activation env port now id enabled sv

-- `select_profile`, up to the state that it returns; `write` is `selection.write`.
unfoldable pub select_profile :
    (write : String → Result (Unit {0})) → Service → Option String → Result (Unit {0})
select_profile write sv none = err (invalid_request "The selected profile is unknown")
select_profile write sv (some id) = do
  raise_if (not (has_key id sv.configuration.profiles))
      (invalid_request "The selected profile is unknown")
  raise_if (not (is_enabled sv id)) (invalid_request "The selected profile is disabled")
  write id
