-- ===== src/Validation.antt =====
-- validation.py: bounded JSON, and schemas without references or regular expressions.
use local_agent_runtime.Base.{
  ℕ, ◌+◌, String, Text, Bool, false, ◌||◌, Option, some, List, [], ◌∷◌, ltb, if◌then◌else◌, length,
  member, str_eq,
}
use local_agent_runtime.Failure.{
  Failure, Result, ok, err, runtime_failure, crash, invalid_request, ◌>>=◌, ◌>>◌,
}
use local_agent_runtime.Json.{Json, arr, obj, Items, nil, cons, Fields, end, field}
use local_agent_runtime.Json.Dumps.{compact, dumps_finite}
use local_agent_runtime.Session.Host.{Validators, Verdict, valid, violation, broken}

held_to_limit : ℕ → Result Text → Result Text
held_to_limit limit (err e) = err (invalid_request "The value must be bounded JSON")
held_to_limit limit (ok text) =
    if ltb limit (length text)
    then err (runtime_failure "input_limit_exceeded" "The input exceeds its limit" 400)
    else ok text

-- `json_text`
unfoldable pub json_text : Json → ℕ → Result Text
unfolding held_to_limit dumps_finite
json_text value limit = held_to_limit limit (dumps_finite compact value)

abbrev pub forbidden_keys : List String
forbidden_keys = "$ref" ∷ "$dynamicRef" ∷ "$recursiveRef" ∷ "pattern" ∷ "patternProperties" ∷ []

abbrev has_forbidden : Fields → Bool
has_forbidden end = false
has_forbidden (field k x fs) = member k forbidden_keys || has_forbidden fs

abbrev pub too_deep : Failure
too_deep = invalid_request "Schema nesting exceeds its limit"

abbrev pub has_reference : Failure
has_reference = invalid_request "Schema references and regular expressions are unsupported"

-- the inner function `check`
unfoldable mutual
  pub check_schema_value : Json → (depth : ℕ) → Result (Unit {0})
  check_schema_value (obj fs) depth =
      if ltb 24 depth
      then err too_deep
      else if has_forbidden fs
      then err has_reference
      else check_fields fs (depth + 1)
  check_schema_value (arr xs) depth =
      if ltb 24 depth then err too_deep else check_items xs (depth + 1)
  check_schema_value _ depth = if ltb 24 depth then err too_deep else ok tt

  pub check_items : Items → (depth : ℕ) → Result (Unit {0})
  check_items nil depth = ok tt
  check_items (cons x xs) depth = check_schema_value x depth >> check_items xs depth

  pub check_fields : Fields → (depth : ℕ) → Result (Unit {0})
  check_fields end depth = ok tt
  check_fields (field k x fs) depth = check_schema_value x depth >> check_fields fs depth

abbrev invalid_schema : Failure
invalid_schema = invalid_request "The schema is invalid"

module _ (v : Validators) where
  -- `Draft202012Validator.check_schema` and the exceptions that are caught around it
  draft_checked : Fields → Verdict → Result Fields
  draft_checked schema valid = ok schema
  draft_checked schema violation = err invalid_schema
  draft_checked schema (broken name) =
      if str_eq name "TypeError" || str_eq name "RecursionError"
      then err invalid_schema
      else err (crash name)

  -- What is read back is a mapping again; anything else could not be checked.
  clean_schema : Option Json → Result Fields
  unfolding check_schema_value draft_checked
  clean_schema (some (obj clean)) = do
    check_schema_value (obj clean) 0
    draft_checked clean (v.check_schema clean)
  clean_schema _ = err (crash "ValueError")

  -- `checked_schema`
  unfoldable pub checked_schema : Fields → Result Fields
  unfolding clean_schema json_text
  checked_schema schema = do raw ← json_text (obj schema) 32000; clean_schema (v.loads raw)
