-- ===== src/Session/Advance/Turn.antt =====
-- `RuntimeService._advance` as a whole: one turn of a session, with the handlers that turn every
-- way in which it can fail into a state and an event of the session.
pub mod Ends
use local_agent_runtime.Base.{ℕ, String, some, if◌then◌else◌}
use local_agent_runtime.Failure.{
  Failure, Result, ok, err, runtime_failure, timed_out, cancelled, crash,
}
use local_agent_runtime.Contracts.{failed, canceled}
use local_agent_runtime.Effect.{Action, ◌>>=◌}
use local_agent_runtime.Session.{SessionRecord, bare, failure_report, task_done, add_event}
use local_agent_runtime.Session.Host.{Validators, Adapter}
use local_agent_runtime.Session.Advance.{call_provider}
use local_agent_runtime.Session.Advance.Settle.{settle}

-- The failure that a consumer sees for an exception.
unfoldable pub public_failure : Failure → String × String
public_failure (runtime_failure code message _) = (code, message)
public_failure timed_out = ("provider_timeout", "The provider timed out")
public_failure _ = ("provider_failure", "The provider failed without exposing content")

unfoldable pub fail_session : (now : ℕ) → String × String → SessionRecord → SessionRecord
fail_session now (code, message) s =
    (add_event now "session_failed" (failure_report code message)
      (record s { status = failed; validation = "failed"; failure = some (code, message) })).1

unfoldable pub cancel_session : (now : ℕ) → SessionRecord → SessionRecord
cancel_session now s =
    (add_event now "session_canceled" bare
      (record s { status = canceled; validation = "not_validated" })).1

-- The `except` clauses. An exception of `add_event` there ends the task with what was written.
unfoldable pub handle : (now : ℕ) → Result (Unit {0}) × SessionRecord → SessionRecord
unfolding public_failure fail_session cancel_session
handle now (ok _, s) = s
handle now (err cancelled, s) = cancel_session now s
handle now (err (runtime_failure code message status), s) =
    fail_session now (public_failure (runtime_failure code message status)) s
handle now (err timed_out, s) = fail_session now (public_failure timed_out) s
handle now (err (crash name), s) = fail_session now (public_failure (crash name)) s

unfoldable pub attempt : Validators → (now : ℕ) → Adapter → Action SessionRecord (Unit {0})
unfolding call_provider settle
attempt v now adapter = do answer ← call_provider now adapter; settle v now answer

-- `_advance`; the task is done afterwards.
unfoldable pub advance : Validators → (now : ℕ) → Adapter → SessionRecord → SessionRecord
unfolding attempt handle
advance v now adapter s = record (handle now (attempt v now adapter s)) { task = task_done }
