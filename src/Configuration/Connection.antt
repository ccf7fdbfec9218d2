-- ===== src/Configuration/Connection.antt =====
-- configuration.py: the connection to a provider. `urllib.parse`, `pathlib` and the environment
-- are parameters.
use local_agent_runtime.Base.{
  ℕ, String, Text, codes, string_of, strip, starts_with, Bool, true, false, not, ◌&&◌, ◌||◌, Option,
  none, some, List, [], ◌∷◌, ◌++◌, leb, ltb, ◌==◌, if◌then◌else◌, length, is_empty, is_some, any,
  all, member, str_eq, same_text, drop,
}
use mathlib.Core.List.{reverse}
use local_agent_runtime.Failure.{
  Failure, Result, ok, err, invalid_configuration, ◌>>=◌, ◌>>◌, raise_if,
}
use local_agent_runtime.Json.{Json, null, str}
use local_agent_runtime.Json.Read.{text_of, is_null, need}
use local_agent_runtime.Contracts.{ProcessingClass, local, external, ProviderConnection}
use local_agent_runtime.Contracts.Public.{text_or_null}
use local_agent_runtime.Configuration.{
  supported_drivers, cli_command, has_endpoint, default_endpoint, processing_of, said, is_upper,
  is_lower, is_digit, is_variable,
}

-- What `urlparse` and the port of its result give.
pub record Url : Type 0 where
  pub scheme : Text
  pub username : Option Text
  pub password : Option Text
  pub hostname : Option Text
  pub port : Option ℕ
  pub path : Text
  pub query : Text
  pub fragment : Text

-- `Path(value).expanduser()`: whether it is absolute, its name after `casefold`, and its text.
pub record ExpandedPath : Type 0 where
  pub is_absolute : Bool
  pub folded_name : Text
  pub shown : Text

pub record Library : Type 0 where
  -- nothing where `urlparse` or the port raises `ValueError`
  pub parse_url : Text → Option Url
  -- `RuntimeError` where there is no home
  pub expand : Text → Result ExpandedPath
  -- `os.environ.get`
  pub environment : Text → Option Text

abbrev pub filled : Option Text → Bool
filled none = false
filled (some s) = not (is_empty s)

abbrev pub is_one_of : Text → List String → Bool
is_one_of s names = any (λ name. same_text s (codes name)) names

-- `parsed.hostname in {…}`
abbrev pub names_host : List String → Option Text → Bool
names_host names none = false
names_host names (some host) = is_one_of host names

drop_slashes : Text → Text
drop_slashes [] = []
drop_slashes (c ∷ s) = let rest = drop_slashes s in if c == b'/' then rest else c ∷ s

-- `s.rstrip("/")`
unfoldable pub without_slashes : Text → Text
unfolding drop_slashes
without_slashes s = reverse (drop_slashes (reverse s))

abbrev pub invalid_endpoint : Failure
invalid_endpoint = invalid_configuration "Provider endpoint is invalid"

abbrev pub port_allowed : Option ℕ → Bool
port_allowed none = true
port_allowed (some n) = leb 1 n && leb n 65535

abbrev pub default_https : Option ℕ → Bool
default_https none = true
default_https (some n) = n == 443

-- The part of `_endpoint` for LM Studio.
unfoldable pub lmstudio_endpoint : Text → Url → Result Text
lmstudio_endpoint endpoint parsed = do
  raise_if
      (not (same_text parsed.scheme (codes "http"))
        || not (names_host ("127.0.0.1" ∷ "localhost" ∷ "::1" ∷ []) parsed.hostname))
      (invalid_configuration "LM Studio must use a loopback HTTP endpoint")
  raise_if (not (is_one_of parsed.path ("" ∷ "/v1" ∷ [])) || not (port_allowed parsed.port))
      (invalid_configuration "LM Studio endpoint path or port is invalid")
  ok (if is_empty parsed.path then endpoint ++ codes "/v1" else endpoint)

-- The part for OpenRouter.
unfoldable pub openrouter_endpoint : Text → Url → Result Text
openrouter_endpoint endpoint parsed = do
  raise_if
      (not (same_text parsed.scheme (codes "https"))
        || not (names_host ("openrouter.ai" ∷ []) parsed.hostname)
        || not (default_https parsed.port)
        || not (same_text parsed.path (codes "/api/v1")))
      (invalid_configuration "OpenRouter must use https://openrouter.ai")
  ok endpoint

-- `DEFAULT_ENDPOINTS[driver] if value is None else value`
unfoldable pub endpoint_text : String → Json → Option Text
endpoint_text driver null = some (codes (default_endpoint driver))
endpoint_text driver value = text_of value

-- `ENV_REFERENCE.fullmatch`, with the name that it captures
unfoldable pub env_reference : Text → Option Text
unfolding is_variable
env_reference s =
    let name = drop 6 s in
    if starts_with (codes "env://") s && is_variable name then some name else none

abbrev pub missing_reference : Failure
missing_reference = invalid_configuration "OpenRouter requires an env:// credential reference"

-- `_credential_reference`
unfoldable pub credential_reference : (driver : String) → Json → Result (Option String)
unfolding env_reference
credential_reference driver value =
    if str_eq driver "openrouter"
    then (do
      shown ← need missing_reference (text_of value)
      raise_if (not (is_some (env_reference shown))) missing_reference
      ok (some (string_of shown)))
    else (do
      raise_if (not (is_null value))
          (invalid_configuration (said (driver ∷ " does not accept a credential reference" ∷ [])))
      ok none)

-- `[A-Za-z0-9][A-Za-z0-9_./-]{0,127}`
unfoldable pub is_upstream : Text → Bool
is_upstream [] = false
is_upstream (c ∷ s) =
    (is_upper c || is_lower c || is_digit c)
    && leb (length s) 127
    && all
        (λ d.
          is_upper d
          || is_lower d
          || is_digit d
          || d == b'_'
          || d == b'.'
          || d == b'/'
          || d == b'-')
        s

abbrev pub is_text : Json → (Text → Bool) → Bool
is_text (str s) holds = holds s
is_text _ holds = false

same_processing : ProcessingClass → ProcessingClass → Bool
same_processing local local = true
same_processing external external = true
same_processing _ _ = false

module _ (library : Library) where
  -- `_trusted_command`
  unfoldable pub trusted_command : (driver : String) → Json → Result Text
  trusted_command driver null = ok (codes (cli_command driver))
  trusted_command driver value = do
    shown ← need (invalid_configuration "Provider command is invalid") (text_of value)
    raise_if (is_empty shown) (invalid_configuration "Provider command is invalid")
    if same_text shown (codes (cli_command driver)) then ok shown else (do
      candidate ← library.expand shown
      raise_if
          (not candidate.is_absolute
            || not (
                is_one_of candidate.folded_name
                  (cli_command driver ∷ said (cli_command driver ∷ ".exe" ∷ []) ∷ [])))
          (invalid_configuration
            (said (driver ∷ " requires the trusted " ∷ cli_command driver ∷ " executable" ∷ [])))
      ok candidate.shown)

  -- `_endpoint`
  unfoldable pub checked_endpoint : (driver : String) → Json → Result Text
  unfolding endpoint_text without_slashes lmstudio_endpoint openrouter_endpoint
  checked_endpoint driver value = do
    given ← need invalid_endpoint (endpoint_text driver value)
    raise_if (not (same_text given (strip given)) || any (λ c. ltb c 33) given) invalid_endpoint
    let endpoint = without_slashes given
    parsed ← need invalid_endpoint (library.parse_url endpoint)
    raise_if
        (filled parsed.username
          || filled parsed.password
          || not (is_empty parsed.query)
          || not (is_empty parsed.fragment))
        (invalid_configuration "Provider endpoints cannot contain credentials or query data")
    if str_eq driver "lmstudio"
        then lmstudio_endpoint endpoint parsed
        else openrouter_endpoint endpoint parsed

  -- `resolve_credential`
  unfoldable pub resolve_credential : Option String → Result (Option Text)
  unfolding env_reference
  resolve_credential none = ok none
  resolve_credential (some reference) = elim (env_reference (codes reference)) [
    | none ↦ err (invalid_configuration "Credential reference is invalid")
    | some name ↦ ok (library.environment name)
  ]

  -- The endpoint or the command is already normal, and the other is missing.
  unfoldable pub validate_address :
      (driver : String) → (command endpoint : Json) → Result (Unit {0})
  unfolding checked_endpoint trusted_command
  validate_address driver command endpoint =
      if has_endpoint driver
      then (do
        normal ← checked_endpoint driver endpoint
        raise_if (not (is_text endpoint (same_text normal)) || not (is_null command))
            (invalid_configuration "Provider endpoint is not normalized"))
      else (do
        trusted ← trusted_command driver command
        raise_if (not (is_text command (same_text trusted)) || not (is_null endpoint))
            (invalid_configuration "Provider command is invalid"))

  unfoldable pub validate_upstream : (driver : String) → Json → Result (Unit {0})
  unfolding is_upstream
  validate_upstream driver upstream =
      if str_eq driver "openrouter"
      then raise_if (not (is_text upstream is_upstream))
          (invalid_configuration "OpenRouter requires an exact upstream provider")
      else raise_if (not (is_null upstream))
          (invalid_configuration "This provider does not accept upstream routing")

  -- `validate_connection`, on fields that may be of any class
  unfoldable pub validate_fields :
      (driver : String)
      → ProcessingClass
      → (command endpoint credential_ref upstream : Json) → Result (Unit {0})
  unfolding same_processing validate_address credential_reference validate_upstream
  validate_fields driver processing command endpoint credential_ref upstream = do
    raise_if (not (member driver supported_drivers))
        (invalid_configuration "Provider driver is unsupported")
    raise_if (not (same_processing processing (processing_of driver)))
        (invalid_configuration "Provider processing class is invalid")
    validate_address driver command endpoint
    reference ← credential_reference driver credential_ref
    validate_upstream driver upstream

  abbrev pub validate_connection : ProviderConnection → Result (Unit {0})
  validate_connection c =
      validate_fields c.driver c.processing (text_or_null c.command) (text_or_null c.endpoint)
        (text_or_null c.credential_ref) (text_or_null c.upstream)
