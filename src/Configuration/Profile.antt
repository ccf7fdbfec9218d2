-- ===== src/Configuration/Profile.antt =====
-- configuration.py: the parts of a profile.
use local_agent_runtime.Base.{
  ℕ, String, Text, codes, string_of, strip, starts_with, Bool, true, false, not, ◌&&◌, ◌||◌, Option,
  none, some, List, [], ◌∷◌, ◌++◌, leb, ltb, if◌then◌else◌, length, is_empty, is_some, any, member,
  same_text, ℤ, pos, negsuc,
}
use local_agent_runtime.Failure.{
  Failure, Result, ok, err, invalid_configuration, ◌>>=◌, ◌>>◌, raise_if,
}
use local_agent_runtime.Json.{Json, null, str, Fields, end, field}
use local_agent_runtime.Json.Read.{
  get, get_or_null, field_names, only_fields, has_fields, int_of, text_of, list_of, need,
}
use local_agent_runtime.Contracts.{
  ReasoningEffort, effort_of_value, has_effort, Limits, default_limits, ModelOptionPolicy,
}
use local_agent_runtime.Configuration.{said, mapping, key_identifier, is_identifier}

unfoldable pub all_ints : Fields → Bool
all_ints end = true
all_ints (field k x fs) = is_some (int_of x) && all_ints fs

-- A limit that was read, or its default.
unfoldable pub limit_value : Fields → String → (default : ℕ) → ℤ
limit_value raw name default = elim (get name raw) [
  | none ↦ pos default
  | some x ↦ elim (int_of x) [ none ↦ pos default | some n ↦ n ]
]

-- `low <= n <= high`
unfoldable pub bounded_limit : (low high : ℕ) → String → ℤ → Result ℕ
bounded_limit low high message (negsuc n) = err (invalid_configuration message)
bounded_limit low high message (pos n) =
    if leb low n && leb n high then ok n else err (invalid_configuration message)

unfoldable pub raw_limits : Json → Result Fields
raw_limits null = ok end
raw_limits value = mapping value "Profile limits"

-- The bounds of `_limits`, in their order.
unfoldable pub bounded_limits : Fields → Result Limits
unfolding limit_value bounded_limit
bounded_limits raw = do
  timeout_seconds ←
      bounded_limit 1 900 "Profile timeout is out of bounds"
        (limit_value raw "timeout_seconds" default_limits.timeout_seconds)
  max_input_chars ←
      bounded_limit 1000 200000 "Profile input limit is out of bounds"
        (limit_value raw "max_input_chars" default_limits.max_input_chars)
  max_output_chars ←
      bounded_limit 1000 100000 "Profile output limit is out of bounds"
        (limit_value raw "max_output_chars" default_limits.max_output_chars)
  max_output_tokens ←
      bounded_limit 1 128000 "Profile token limit is out of bounds"
        (limit_value raw "max_output_tokens" default_limits.max_output_tokens)
  max_tool_rounds ←
      bounded_limit 0 32 "Profile tool-round limit is out of bounds"
        (limit_value raw "max_tool_rounds" default_limits.max_tool_rounds)
  ok (record {
    timeout_seconds = timeout_seconds;
    max_input_chars = max_input_chars;
    max_output_chars = max_output_chars;
    max_output_tokens = max_output_tokens;
    max_tool_rounds = max_tool_rounds;
  })

abbrev pub limit_names : List String
limit_names =
    "timeout_seconds" ∷ "max_input_chars" ∷ "max_output_chars" ∷ "max_output_tokens"
    ∷ "max_tool_rounds" ∷ []

-- `_limits`
unfoldable pub read_limits : Json → Result Limits
unfolding raw_limits all_ints bounded_limits
read_limits value = do
  raw ← raw_limits value
  raise_if (not (only_fields limit_names raw))
      (invalid_configuration "Profile limits contain unsupported fields")
  raise_if (not (all_ints raw)) (invalid_configuration "Profile limits must be integers")
  bounded_limits raw

abbrev pub bad_efforts : String → Failure
bad_efforts label =
    invalid_configuration (said ("Profile " ∷ label ∷ " reasoning efforts are invalid" ∷ []))

-- The loop of `_reasoning_efforts`.
unfoldable pub read_efforts :
    (label : String) → List ReasoningEffort → List Json → Result (List ReasoningEffort)
read_efforts label efforts [] = ok efforts
read_efforts label efforts (item ∷ rest) = do
  shown ← need (bad_efforts label) (text_of item)
  effort ←
      need
        (invalid_configuration
          (said ("Profile " ∷ label ∷ " declares an unknown reasoning effort" ∷ [])))
        (effort_of_value shown)
  raise_if (has_effort effort efforts)
      (invalid_configuration (said ("Profile " ∷ label ∷ " repeats a reasoning effort" ∷ [])))
  read_efforts label (efforts ++ effort ∷ []) rest

-- `_reasoning_efforts`
unfoldable pub reasoning_efforts : (label : String) → Json → Result (List ReasoningEffort)
unfolding read_efforts
reasoning_efforts label null = ok []
reasoning_efforts label value = do
  given ← need (bad_efforts label) (list_of value)
  raise_if (is_empty given) (bad_efforts label)
  read_efforts label [] given

-- `_default_reasoning_effort`
unfoldable pub default_reasoning_effort : (label : String) → Json → Result (Option ReasoningEffort)
default_reasoning_effort label null = ok none
default_reasoning_effort label value = do
  shown ←
      need
        (invalid_configuration
          (said ("Profile " ∷ label ∷ " default reasoning effort is invalid" ∷ [])))
        (text_of value)
  effort ←
      need
        (invalid_configuration
          (said ("Profile " ∷ label ∷ " default reasoning effort is unknown" ∷ [])))
        (effort_of_value shown)
  ok (some effort)

-- `default is not None and efforts and default not in efforts`
abbrev pub undeclared : Option ReasoningEffort → List ReasoningEffort → Bool
undeclared none efforts = false
undeclared (some default) [] = false
undeclared (some default) (e ∷ efforts) = not (has_effort default (e ∷ efforts))

unfoldable pub is_model : Text → Bool
is_model s =
    not (is_empty s)
    && same_text s (strip s)
    && leb (length s) 256
    && not (starts_with (codes "-") s)
    && not (any (λ c. ltb c 32) s)

-- `_model`
unfoldable pub read_model : Json → (label : String) → Result String
unfolding is_model
read_model (str s) label =
    if is_model s
    then ok (string_of s)
    else err (invalid_configuration (said (label ∷ " is invalid" ∷ [])))
read_model _ label = err (invalid_configuration (said (label ∷ " is invalid" ∷ [])))

read_tasks : Failure → List Json → Result (List String)
unfolding is_identifier
read_tasks bad [] = ok []
read_tasks bad (item ∷ rest) = do
  task ← need bad (text_of item)
  raise_if (not (is_identifier task)) bad
  tasks ← read_tasks bad rest
  ok (string_of task ∷ tasks)

-- `len(set(tasks)) == len(tasks)`
abbrev pub distinct : List String → Bool
distinct [] = true
distinct (t ∷ ts) = not (member t ts) && distinct ts

-- A list of task codes, each once; `[]` stands for a missing one.
unfoldable pub task_codes : Failure → Option Json → Result (List String)
unfolding read_tasks
task_codes bad none = ok []
task_codes bad (some value) = do
  given ← need bad (list_of value)
  tasks ← read_tasks bad given
  raise_if (not (distinct tasks)) bad
  ok tasks

-- one iteration of the loop of `_model_options`
unfoldable pub read_option :
    (profile_id : String) → (models : List String) → String → Json → Result ModelOptionPolicy
unfolding task_codes read_model reasoning_efforts default_reasoning_effort
read_option profile_id models raw_id value = do
  option_id ←
      key_identifier raw_id (said ("Profile " ∷ profile_id ∷ " model option identifier" ∷ []))
  let label = said (profile_id ∷ " model option " ∷ option_id ∷ [])
  raw ← mapping value (said ("Profile " ∷ label ∷ []))
  raise_if
      (not (
          only_fields
            ("model" ∷ "qualified_tasks" ∷ "reasoning_efforts" ∷ "default_reasoning_effort" ∷ [])
            raw)
        || not (has_fields ("model" ∷ "qualified_tasks" ∷ []) raw))
      (invalid_configuration (said ("Profile " ∷ label ∷ " fields are invalid" ∷ [])))
  model ←
      read_model (get_or_null "model" raw)
        (said ("Profile " ∷ profile_id ∷ " model option model" ∷ []))
  raise_if (member model models)
      (invalid_configuration (said ("Profile " ∷ profile_id ∷ " repeats a model option" ∷ [])))
  let bad = invalid_configuration (said ("Profile " ∷ label ∷ " qualified tasks are invalid" ∷ []))
  tasks ← task_codes bad (get "qualified_tasks" raw)
  raise_if (is_empty tasks) bad
  efforts ← reasoning_efforts label (get_or_null "reasoning_efforts" raw)
  default ← default_reasoning_effort label (get_or_null "default_reasoning_effort" raw)
  raise_if (undeclared default efforts) (
      invalid_configuration
        (said ("Profile " ∷ label ∷ " default reasoning effort is not declared" ∷ [])))
  ok (record {
    id = option_id;
    model = model;
    qualified_tasks = tasks;
    reasoning_efforts = efforts;
    default_reasoning_effort = default;
  })

unfoldable pub read_options :
    (profile_id : String)
    → (models : List String) → Fields
    → Result (List (String × ModelOptionPolicy))
unfolding read_option
read_options profile_id models end = ok []
read_options profile_id models (field raw_id value fs) = do
  option ← read_option profile_id models raw_id value
  rest ← read_options profile_id (option.model ∷ models) fs
  ok ((option.id, option) ∷ rest)

-- `_model_options`
unfoldable pub model_options_of :
    (profile_id : String) → Json → Result (List (String × ModelOptionPolicy))
unfolding read_options
model_options_of profile_id null = ok []
model_options_of profile_id value = do
  raw ← mapping value (said ("Profile " ∷ profile_id ∷ " model options" ∷ []))
  raise_if (ltb 512 (length (field_names raw)))
      (invalid_configuration (said ("Profile " ∷ profile_id ∷ " has too many model options" ∷ [])))
  read_options profile_id [] raw
