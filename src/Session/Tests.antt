-- ===== src/Session/Tests.antt =====
-- A turn of a session that its provider answers with text, whole and in fragments.
use local_agent_runtime.Base.{
  Text, codes, ◌≡◌, refl, true, false, Option, none, some, List, [], ◌∷◌, arith, pos,
}
use local_agent_runtime.Failure.{ok}
use local_agent_runtime.Contracts.{
  local, ProviderConnection, ModelProfile, default_limits, running, plain_message, CompletionResult,
}
use local_agent_runtime.Session.{SessionRecord, task_active}
use local_agent_runtime.Session.Events.{HasRoom}
use local_agent_runtime.Session.Host.{Validators, valid, Adapter}
use local_agent_runtime.Session.Emitter.{TextDeltaEmitter, new_emitter, flush}
use local_agent_runtime.Session.Emitter.Stream.{push_all}
use local_agent_runtime.Session.Emitter.Stream.Paced.{IsHarmless}
use local_agent_runtime.Session.Emitter.Stream.Paced.{stream-IsHarmless}
use local_agent_runtime.Session.Advance.Turn.{attempt, advance}
use local_agent_runtime.Session.Advance.Turn.Ends.{EndOf, advance-EndOf}

abbrev connection : ProviderConnection
connection = record {
  id = "lmstudio";
  driver = "lmstudio";
  processing = local;
  command = none;
  endpoint = some "http://127.0.0.1:1234";
  credential_ref = none;
  upstream = none;
}

abbrev profile : ModelProfile
profile = record {
  id = "small";
  provider_id = "lmstudio";
  model = "qwen";
  allow_external_processing = false;
  allow_private_processing = true;
  limits = default_limits;
  qualified_tasks = [];
  reasoning_efforts = [];
  default_reasoning_effort = none;
  model_options = [];
  catalog_model_tasks = [];
}

abbrev session : SessionRecord
session = record {
  id = "s1";
  profile = profile;
  connection = connection;
  tools = [];
  messages = plain_message "user" (codes "hello") ∷ [];
  private_processing = false;
  model_option_id = none;
  task_code = none;
  output_schema = none;
  created_at = 1;
  updated_at = 1;
  finished_at = none;
  output_chars = 0;
  status = running;
  events = [];
  pending_tools = [];
  tool_rounds = 0;
  provider_calls = 1;
  final_text = none;
  failure = none;
  effective_model = none;
  effective_upstream = none;
  requested_reasoning_effort = none;
  effective_reasoning_effort = none;
  usage = [];
  validation = "pending";
  context = none;
  observed_prompt = none;
  task = task_active;
}

-- Nothing is parsed or validated in these turns.
abbrev validators : Validators
validators = record {
  loads = λ raw. none;
  validate = λ value schema. valid;
  draft_validate = λ value schema. valid;
  check_schema = λ schema. valid;
}

abbrev answer : CompletionResult
answer = record {
  text = codes "hi there";
  tool_requests = [];
  effective_model = some "qwen";
  effective_upstream = none;
  usage = ("prompt_tokens", pos 7000000000) ∷ [];
  effective_reasoning_effort = none;
}

abbrev deltas : List (Option Text)
deltas = some (codes "hi ") ∷ some (codes "there") ∷ []

abbrev adapter : Adapter
adapter = record {
  reasoning_efforts = [];
  token_streaming = true;
  context_window = none;
  prompt_chars = none;
  complete = λ invocation. ok answer;
  complete_streaming = some λ invocation. (deltas, ok answer);
}

session-HasRoom : HasRoom session
session-HasRoom = record { numbered = refl; room = omega arith; output_bounded = omega arith }

advance-EndOf_example :
    EndOf (attempt validators 5 adapter session).0 (advance validators 5 adapter session)
advance-EndOf_example = advance-EndOf validators 5 adapter session session-HasRoom

abbrev emitter : TextDeltaEmitter
emitter = record {
  session = session;
  round = 1;
  pending = [];
  text = [];
  text_chars = 0;
  emitted_once = false;
  emitted_events = 0;
  event_budget = 256;
  chunk_chars = 197;
}

new_emitter-session : new_emitter session ≡ ok emitter
unfolding new_emitter
new_emitter-session = refl

stream-IsHarmless_example :
    IsHarmless (push_all 5 deltas emitter).0 × ((flush 5 (push_all 5 deltas emitter).1).0 ≡ ok tt)
stream-IsHarmless_example =
    stream-IsHarmless 5 session emitter deltas (omega arith) new_emitter-session
