-- ===== src/Session/Advance/Turn/Ends.antt =====
-- Every turn ends in a state that the session's log reports.
use local_agent_runtime.Base.{ℕ, String, ◌≡◌, refl, some}
use local_agent_runtime.Failure.{Result, ok, err, runtime_failure, timed_out, cancelled, crash}
use local_agent_runtime.Contracts.{CompletionResult, failed, canceled}
use local_agent_runtime.Context.Plan.{ContextPlan}
use local_agent_runtime.Effect.{resume}
use local_agent_runtime.Session.{SessionRecord, bare, failure_report, task_done, touch}
use local_agent_runtime.Session.Events.{HasRoom, add_event-terminal, appended-IsEnded}
use local_agent_runtime.Session.Host.{Validators, Adapter}
use local_agent_runtime.Session.Advance.{call_provider}
use local_agent_runtime.Session.Advance.Room.{call_provider-room}
use local_agent_runtime.Session.Advance.Settle.{settle}
use local_agent_runtime.Session.Advance.Settle.Requests.{Stands, Settled, Settles, settle-Settles}
use local_agent_runtime.Session.Advance.Turn.{
  public_failure, fail_session, cancel_session, handle, attempt, advance,
}

-- How a turn has ended, by what its body did.
abbrev pub EndOf : Result (Unit {0}) → SessionRecord → Type 0
EndOf (ok _) s = Settled s
EndOf (err cancelled) s = Stands canceled "session_canceled" s × (s.validation ≡ "not_validated")
EndOf (err (runtime_failure code message status)) s =
    Stands failed "session_failed" s
    × (s.failure ≡ some (code, message))
    × (s.validation ≡ "failed")
EndOf (err timed_out) s =
    Stands failed "session_failed" s
    × (s.failure ≡ some ("provider_timeout", "The provider timed out"))
    × (s.validation ≡ "failed")
EndOf (err (crash name)) s =
    Stands failed "session_failed" s
    × (s.failure ≡ some ("provider_failure", "The provider failed without exposing content"))
    × (s.validation ≡ "failed")

module _ (now : ℕ) where
  fail_session-Stands :
      (report : String × String) (s : SessionRecord)
      → HasRoom s
      → Stands failed "session_failed" (fail_session now report s)
        × ((fail_session now report s).failure ≡ some report)
        × ((fail_session now report s).validation ≡ "failed")
  unfolding fail_session touch
  fail_session-Stands (code, message) s h =
      let s' : SessionRecord = record s {
        status = failed;
        validation = "failed";
        failure = some (code, message);
      } in
      rw
        (
          add_event-terminal now "session_failed" (failure_report code message) s' refl h,
          fail_session,
        )
        (
          (
            refl,
            appended-IsEnded now "session_failed" (failure_report code message) s' h,
            h.output_bounded,
          ),
          refl,
          refl,
        )

  pub cancel_session-Stands :
      (s : SessionRecord)
      → HasRoom s
      → Stands canceled "session_canceled" (cancel_session now s)
        × ((cancel_session now s).validation ≡ "not_validated")
  unfolding cancel_session touch
  cancel_session-Stands s h =
      let s' : SessionRecord = record s { status = canceled; validation = "not_validated" } in
      rw (add_event-terminal now "session_canceled" bare s' refl h, cancel_session)
        ((refl, appended-IsEnded now "session_canceled" bare s' h, h.output_bounded), refl)

  handle-EndOf : (p : Result (Unit {0}) × SessionRecord) → Settles p → EndOf p.0 (handle now p)
  unfolding handle public_failure
  handle-EndOf (ok _, s) h = h
  handle-EndOf (err cancelled, s) h = cancel_session-Stands s h
  handle-EndOf (err (runtime_failure code message status), s) h =
      fail_session-Stands (code, message) s h
  handle-EndOf (err timed_out, s) h = fail_session-Stands _ s h
  handle-EndOf (err (crash name), s) h = fail_session-Stands _ s h

module _ (v : Validators) (now : ℕ) where
  answer-Settles :
      (p : Result (ContextPlan × CompletionResult) × SessionRecord)
      → HasRoom p.1
      → Settles (resume p (settle v now))
  answer-Settles (err e, s) h = h
  answer-Settles (ok (plan, result), s) h = settle-Settles v now result plan s h

  attempt-Settles :
      (adapter : Adapter) (s : SessionRecord) → HasRoom s → Settles (attempt v now adapter s)
  unfolding attempt
  attempt-Settles adapter s h =
      answer-Settles (call_provider now adapter s) ((call_provider-room now adapter).at s h)

  -- Whatever its provider and validators do, a turn that begins with room in the log ends: it
  -- waits for tool results or has completed if its body returned, is canceled if the body was
  -- cancelled, and has failed with the public code of any other exception; the last event of the
  -- log is the one of that state, and the numbering and the bound of the log hold.
  pub advance-EndOf :
      (adapter : Adapter) (s : SessionRecord)
      → HasRoom s
      → EndOf (attempt v now adapter s).0 (advance v now adapter s)
  unfolding advance
  advance-EndOf adapter s h =
      settled_task (attempt v now adapter s).0 (handle now (attempt v now adapter s))
        (handle-EndOf now (attempt v now adapter s) (attempt-Settles adapter s h))
    where
      settled_task :
          (r : Result (Unit {0})) (t : SessionRecord)
          → EndOf r t
          → EndOf r (record t { task = task_done })
      settled_task (ok _) t h = h
      settled_task (err cancelled) t h = h
      settled_task (err (runtime_failure code message status)) t h = h
      settled_task (err timed_out) t h = h
      settled_task (err (crash name)) t h = h
