-- ===== src/Service.antt =====
-- `RuntimeService` of service.py: its table of sessions and the rules that its requests share.
-- A method that returns `record.public_dict()` returns the record here. The clock is read once in
-- a request. `asyncio` runs what stands between two `await`s at one stretch, so a request without
-- one is a single step.
pub mod Requests
pub mod ModelOptions
pub mod Create
pub mod Opening
pub mod Activation
pub mod Listing
pub mod Logs
pub mod Steps
mod Tests
use local_agent_runtime.Base.{
  ℕ, ◌+◌, ◌-◌, ◌*◌, String, Bool, true, false, not, ◌&&◌, ◌||◌, Option, none, some, List, [], ◌∷◌,
  leb, ltb, if◌then◌else◌, length, or_else, lookup, put, without, has_key, keep, values, sum_of,
}
use local_agent_runtime.Failure.{Failure, Result, ok, err, runtime_failure, conflict, not_found}
use local_agent_runtime.Contracts.{RuntimeConfiguration, SessionStatus, running}
use local_agent_runtime.Effect.{Action, lift, gets, modify, ◌>>=◌, ◌>>◌}
use local_agent_runtime.Session.{SessionRecord, bare, TaskState, task_active, max_events, add_event}

pub record Service : Type 0 where
  pub configuration : RuntimeConfiguration
  pub sessions : List (String × SessionRecord)
  pub activation_state : List (String × Bool)

abbrev pub is_running : SessionStatus → Bool
is_running running = true
is_running _ = false

abbrev pub is_active : TaskState → Bool
is_active task_active = true
is_active _ = false

-- 1,800 seconds
abbrev pub idle_limit : ℕ
idle_limit = 1800 * 1000000

abbrev pub is_expired : (now : ℕ) → SessionRecord → Bool
is_expired now s = ltb idle_limit (now - s.updated_at) && not (is_running s.status)

abbrev pub running_count : List (String × SessionRecord) → ℕ
running_count sessions =
    sum_of (λ (s : SessionRecord). if is_running s.status then 1 else 0) (values sessions)

-- `_enabled`
unfoldable pub is_enabled : Service → String → Bool
is_enabled sv profile_id =
    or_else (lookup profile_id sv.activation_state)
      (or_else (lookup profile_id sv.configuration.managed_profiles) true)

-- `_record`; an expired session is dropped.
unfoldable pub find_record : (now : ℕ) → String → Action Service SessionRecord
find_record now id sv = elim (lookup id sv.sessions) [
  | none ↦ (err (not_found "The session does not exist"), sv)
  | some s ↦
      if is_expired now s
      then (err (not_found "The session expired"), record sv { sessions = without id sv.sessions })
      else (ok s, sv)
]

abbrev pub already_running : Failure
already_running = conflict "The session is already running"

abbrev pub log_full : Failure
log_full = conflict "The session event limit was reached; start a new session"

abbrev pub provider_busy : Failure
provider_busy = runtime_failure "capacity_exceeded" "Provider concurrency limit reached" 429

-- `_ensure_schedulable`
unfoldable pub ensure_schedulable : Service → SessionRecord → Result (Unit {0})
ensure_schedulable sv s =
    if is_active s.task
    then err already_running
    else if leb (max_events - 8) (length s.events)
    then err log_full
    else if leb 8 (running_count sv.sessions) && not (is_running s.status)
    then err provider_busy
    else ok tt

pub started : SessionRecord → SessionRecord
started s = record s { status = running; finished_at = none; provider_calls = s.provider_calls + 1 }

-- The turn's event and its task.
unfoldable pub start_turn : (now : ℕ) → Action SessionRecord (Unit {0})
unfolding started
start_turn now = do
  modify started
  add_event now "provider_started" bare
  modify (λ s. record s { task = task_active })

-- `_schedule`
unfoldable pub schedule : (now : ℕ) → Service → Action SessionRecord (Unit {0})
unfolding start_turn
schedule now sv = do room ← gets (ensure_schedulable sv); lift room; start_turn now

-- A request on one session: the record that it leaves stands in the table, whether it returns or
-- raises, because the table holds the object that the request works on.
unfoldable pub placed :
    String → Service → Result (Unit {0}) × SessionRecord → Result SessionRecord × Service
placed id sv (ok _, s) = (ok s, record sv { sessions = put id s sv.sessions })
placed id sv (err e, s) = (err e, record sv { sessions = put id s sv.sessions })

pub worked :
    String
    → (Service → Action SessionRecord (Unit {0}))
    → Result SessionRecord × Service
    → Result SessionRecord × Service
unfolding placed
worked id body (err e, sv) = (err e, sv)
worked id body (ok s, sv) = placed id sv (body sv s)

unfoldable pub with_record :
    (now : ℕ) → String → (Service → Action SessionRecord (Unit {0})) → Action Service SessionRecord
unfolding find_record worked
with_record now id body sv = worked id body (find_record now id sv)
