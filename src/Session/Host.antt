-- ===== src/Session/Host.antt =====
-- What a session's turn takes from outside the runtime: the JSON parser, the `jsonschema`
-- package, and the adapter of its provider with what that answers.
use local_agent_runtime.Base.{ℕ, String, Text, Bool, Option, List}
use local_agent_runtime.Failure.{Result}
use local_agent_runtime.Json.{Json, Fields}
use local_agent_runtime.Contracts.{ReasoningEffort, ContextWindow, CompletionResult, Invocation}

-- A validator returns, finds a violation, or fails in another way, which is given by the class.
pub data Verdict : Type 0 where
  valid violation : Verdict
  broken : String → Verdict

pub record Validators : Type 0 where
  -- `json.loads`, without a value where it raises `ValueError` or `RecursionError`
  pub loads : Text → Option Json
  -- `jsonschema.validate(instance, schema)`
  pub validate : Json → Fields → Verdict
  -- `Draft202012Validator(schema).validate(value)`
  pub draft_validate : Json → Fields → Verdict
  -- `Draft202012Validator.check_schema(schema)`
  pub check_schema : Fields → Verdict

-- How the probe for the context window ends: a value, which may be no `ContextWindow`; an
-- exception or the probe's own time limit; or the cancellation of the task, or the time limit
-- of the whole call.
pub data Probe : Type 0 where
  answered : Option ContextWindow → Probe
  probe_failed : Probe
  probe_cancelled : Probe
  out_of_time : Probe

-- An adapter, with what its calls return. A method that an adapter may lack is an `Option`. A
-- streaming call pushes its fragments, none of which it holds back, and ends as it says; it lets
-- an exception of `push` through. The size of a request is `none` for what is no `int` from 0 on.
pub record Adapter : Type 0 where
  pub reasoning_efforts : List ReasoningEffort
  pub token_streaming : Bool
  pub context_window : Option Probe
  pub prompt_chars : Option (Invocation → Result (Option ℕ))
  pub complete : Invocation → Result CompletionResult
  pub complete_streaming : Option (Invocation → List (Option Text) × Result CompletionResult)
