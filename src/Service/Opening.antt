-- ===== src/Service/Opening.antt =====
-- `create_session` as a whole, from the checks of the request to the scheduled first turn.
use local_agent_runtime.Base.{ℕ, String, not, ◌&&◌, leb, ltb, if◌then◌else◌, length, put}
use local_agent_runtime.Failure.{Result, ok, err, runtime_failure}
use local_agent_runtime.Context.Estimate.Prompt.{estimate_prompt_chars}
use local_agent_runtime.Effect.{Action, lift, gets, modify, refuse_if, ◌>>=◌, ◌>>◌}
use local_agent_runtime.Session.{SessionRecord}
use local_agent_runtime.Service.{Service, placed, ensure_schedulable, schedule}
use local_agent_runtime.Service.Create.{
  NewSession, Surroundings, Admitted, admit, build_record, evict,
}

unfoldable pub evicted : (now : ℕ) → Service → Service
evicted now sv = record sv { sessions = evict now sv.sessions }

opening_limit : SessionRecord → Result ℕ → Result (Unit {0})
opening_limit s (err e) = err e
opening_limit s (ok chars) =
    if ltb s.profile.limits.max_input_chars chars
    then err (runtime_failure "input_limit_exceeded" "The input exceeds its limit" 400)
    else ok tt

-- The opening turn, measured as a whole.
pub opening_size : SessionRecord → Result (Unit {0})
unfolding opening_limit
opening_size s = opening_limit s (estimate_prompt_chars s.messages s.tools s.output_schema)

-- The record enters the table and its first turn is scheduled.
unfoldable pub opened : (now : ℕ) → String → SessionRecord → Action Service SessionRecord
unfolding placed
opened now id s sv =
    let joined : Service = record sv { sessions = put id s sv.sessions } in
    placed id joined (schedule now joined s)

-- The last checks, then the table.
unfoldable pub enter : (now : ℕ) → String → SessionRecord → Action Service SessionRecord
unfolding opening_size opened
enter now id s = do
  lift (opening_size s)
  room ← gets λ sv. ensure_schedulable sv s
  lift room
  opened now id s

-- What `create_session` does once the request is admitted.
unfoldable pub create_admitted :
    Surroundings → (now : ℕ) → (id : String) → NewSession → Admitted → Action Service SessionRecord
unfolding evicted enter
create_admitted env now id args a = do
  modify (evicted now)
  full ← gets λ sv. leb 128 (length sv.sessions)
  refuse_if full (runtime_failure "capacity_exceeded" "Session capacity reached" 429)
  refuse_if (a.private_processing && not a.profile.allow_private_processing) (
      runtime_failure "processing_not_allowed"
        "The selected profile does not allow private processing" 403)
  s ← lift (build_record env now id args a)
  enter now id s

-- `create_session`; `id` is the identifier that `uuid4` returns.
unfoldable pub create_session :
    Surroundings → (now : ℕ) → (id : String) → NewSession → Action Service SessionRecord
unfolding create_admitted
create_session env now id args = do
  admission ← gets (λ sv. admit env sv args)
  a ← lift admission
  create_admitted env now id args a
