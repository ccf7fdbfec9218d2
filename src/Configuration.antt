-- ===== src/Configuration.antt =====
-- configuration.py: the names, drivers and messages of a deployment's configuration. What the
-- YAML loader returns is a JSON value here: a value of another class is refused wherever one
-- like `nonfinite` is.
pub mod Connection
pub mod Profile
pub mod Load
pub mod Loaded
mod Tests
use local_agent_runtime.Base.{
  ℕ, String, Text, codes, string_of, flatten, map, Bool, true, false, not, ◌&&◌, ◌||◌, Option, none,
  some, List, [], ◌∷◌, leb, ltb, ◌==◌, if◌then◌else◌, length, all, member, str_eq,
}
use local_agent_runtime.Failure.{Failure, Result, ok, err, invalid_configuration}
use local_agent_runtime.Json.{Json, str, Fields}
use local_agent_runtime.Json.Read.{fields_of, need}
use local_agent_runtime.Contracts.{ProcessingClass, local, external}

abbrev pub supported_drivers : List String
supported_drivers = "codex_cli" ∷ "claude_cli" ∷ "grok_cli" ∷ "lmstudio" ∷ "openrouter" ∷ []

-- the keys of `CLI_COMMANDS` and its values
abbrev pub is_cli : String → Bool
is_cli driver = member driver ("codex_cli" ∷ "claude_cli" ∷ "grok_cli" ∷ [])

abbrev pub cli_command : String → String
cli_command driver =
    if str_eq driver "codex_cli"
    then "codex"
    else if str_eq driver "claude_cli"
    then "claude"
    else "grok"

-- the keys of `DEFAULT_ENDPOINTS` and its values
abbrev pub has_endpoint : String → Bool
has_endpoint driver = member driver ("lmstudio" ∷ "openrouter" ∷ [])

abbrev pub default_endpoint : String → String
default_endpoint driver =
    if str_eq driver "lmstudio" then "http://127.0.0.1:1234/v1" else "https://openrouter.ai/api/v1"

-- the class that a driver has
abbrev pub processing_of : String → ProcessingClass
processing_of driver = if str_eq driver "lmstudio" then local else external

-- `f"…"`
abbrev pub said : List String → String
said parts = string_of (flatten (map codes parts))

abbrev pub is_lower : ℕ → Bool
is_lower c = leb b'a' c && leb c b'z'

abbrev pub is_upper : ℕ → Bool
is_upper c = leb b'A' c && leb c b'Z'

abbrev pub is_digit : ℕ → Bool
is_digit c = leb b'0' c && leb c b'9'

-- `IDENTIFIER.fullmatch`
unfoldable pub is_identifier : Text → Bool
is_identifier [] = false
is_identifier (c ∷ s) =
    is_lower c
    && leb (length s) 63
    && all (λ d. is_lower d || is_digit d || d == b'_' || d == b'-') s

-- The capital letter and the rest of an environment variable's name.
unfoldable pub is_variable : Text → Bool
is_variable [] = false
is_variable (c ∷ s) =
    is_upper c && leb (length s) 127 && all (λ d. is_upper d || is_digit d || d == b'_') s

-- `_mapping`
abbrev pub mapping : Json → (label : String) → Result Fields
mapping value label =
    need (invalid_configuration (said (label ∷ " must be an object" ∷ []))) (fields_of value)

-- `_identifier`
unfoldable pub identifier : Json → (label : String) → Result String
unfolding is_identifier
identifier (str s) label =
    if is_identifier s
    then ok (string_of s)
    else err (invalid_configuration (said (label ∷ " is invalid" ∷ [])))
identifier _ label = err (invalid_configuration (said (label ∷ " is invalid" ∷ [])))

-- `_identifier` of a mapping's key
unfoldable pub key_identifier : String → (label : String) → Result String
unfolding is_identifier
key_identifier k label =
    if is_identifier (codes k)
    then ok k
    else err (invalid_configuration (said (label ∷ " is invalid" ∷ [])))
