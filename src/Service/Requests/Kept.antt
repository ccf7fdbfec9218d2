-- ===== src/Service/Requests/Kept.antt =====
-- The requests on one session keep the table's logs.
use local_agent_runtime.Base.{
  ℕ, String, ◌≡◌, refl, ap, true, false, Option, none, some, List, [], Bool-cases, inl, inr,
  if◌then◌else◌,
}
use local_agent_runtime.Failure.{Result, ok, err, runtime_failure, timed_out, cancelled, crash}
use local_agent_runtime.Json.{Json}
use local_agent_runtime.Contracts.{
  ReasoningEffort, ToolResult, SessionStatus, completed, failed, canceled,
}
use local_agent_runtime.Effect.Keeps.{Keeps, keeps_rules}
use local_agent_runtime.Session.{SessionRecord, is_terminal, task_done, bare, touch}
use local_agent_runtime.Session.Events.{HasRoom, add_event-terminal, appended, appended-IsEnded}
use local_agent_runtime.Session.Host.{Validators, Adapter}
use local_agent_runtime.Session.Advance.Settle.Requests.{Stands}
use local_agent_runtime.Session.Advance.Turn.{advance, attempt}
use local_agent_runtime.Session.Advance.Turn.Ends.{EndOf, advance-EndOf}
use local_agent_runtime.Service.{Service, is_active}
use local_agent_runtime.Service.Logs.{
  IsLogged, HasRoom-IsLogged, IsLogged-HasRoom, schedule-IsLogged, add_event-IsLogged,
}
use local_agent_runtime.Service.Requests.{
  submit_body, continue_body, join_task, mark_canceled, cancel_open, cancel_body,
}

pub submit_body-IsLogged :
    (now : ℕ) (results : List ToolResult) (sv : Service)
    → Keeps IsLogged (submit_body now results sv)
unfolding submit_body
submit_body-IsLogged now results sv =
    search (keeps_rules, add_event-IsLogged, schedule-IsLogged) depth 24

pub continue_body-IsLogged :
    (now : ℕ) (supported : List ReasoningEffort) (prompt effort : Json) (sv : Service)
    → Keeps IsLogged (continue_body now supported prompt effort sv)
unfolding continue_body
continue_body-IsLogged now supported prompt effort sv =
    search (keeps_rules, add_event-IsLogged, schedule-IsLogged) depth 24

Stands-IsLogged :
    (status : SessionStatus) (event_type : String) (s : SessionRecord)
    → is_terminal status ≡ true
    → Stands status event_type s
    → IsLogged s
Stands-IsLogged status event_type s ended h = record {
  numbered = h.1.numbered;
  bounded = h.1.bounded;
  open_room = λ still_open. cc (ap is_terminal h.0, ended, still_open);
  output_bounded = h.2;
}

EndOf-IsLogged : (r : Result (Unit {0})) (s : SessionRecord) → EndOf r s → IsLogged s
EndOf-IsLogged (ok _) s (inl (stands, room)) = HasRoom-IsLogged s room
EndOf-IsLogged (ok _) s (inr stands) = Stands-IsLogged completed "session_completed" s refl stands
EndOf-IsLogged (err cancelled) s h = Stands-IsLogged canceled "session_canceled" s refl h.0
EndOf-IsLogged (err (runtime_failure code message status)) s h =
    Stands-IsLogged failed "session_failed" s refl h.0
EndOf-IsLogged (err timed_out) s h = Stands-IsLogged failed "session_failed" s refl h.0
EndOf-IsLogged (err (crash name)) s h = Stands-IsLogged failed "session_failed" s refl h.0

pub advance-IsLogged :
    (v : Validators) (now : ℕ) (adapter : Adapter) (s : SessionRecord)
    → HasRoom s
    → IsLogged (advance v now adapter s)
advance-IsLogged v now adapter s h =
    EndOf-IsLogged (attempt v now adapter s).0 (advance v now adapter s)
      (advance-EndOf v now adapter s h)

module _ (v : Validators) (now : ℕ) where
  join_task-IsLogged :
      (ran : Option Adapter) (s : SessionRecord) → HasRoom s → IsLogged (join_task v now ran s)
  unfolding join_task
  join_task-IsLogged none s h = HasRoom-IsLogged (record s { task = task_done }) h
  join_task-IsLogged (some adapter) s h = advance-IsLogged v now adapter s h

  mark_canceled-IsLogged : (s : SessionRecord) → HasRoom s → IsLogged (mark_canceled now s).1
  unfolding mark_canceled touch
  mark_canceled-IsLogged s h =
      let s' : SessionRecord = record s {
        status = canceled;
        pending_tools = [];
        validation = "not_validated";
      } in
      rw (add_event-terminal now "session_canceled" bare s' refl h, mark_canceled)
        (Stands-IsLogged canceled "session_canceled" (appended now "session_canceled" bare s') refl
          (refl, appended-IsEnded now "session_canceled" bare s' h, h.output_bounded))

  open-HasRoom : (s : SessionRecord) → IsLogged s → is_terminal s.status ≡ false → HasRoom s
  open-HasRoom s h still_open = IsLogged-HasRoom s h (h.open_room still_open)

  cancel_open-IsLogged :
      (ran : Option Adapter) (s : SessionRecord) → HasRoom s → IsLogged (cancel_open v now ran s).1
  unfolding cancel_open
  cancel_open-IsLogged ran s h =
      finished (if is_active s.task then join_task v now ran s else s)
        (elim (Bool-cases (is_active s.task)) [
          | inl active ↦ rw active (join_task-IsLogged ran s h)
          | inr idle ↦ rw idle (HasRoom-IsLogged s h)
        ])
    where
      finished :
          (t : SessionRecord)
          → IsLogged t
          → IsLogged (if is_terminal t.status then (ok tt, t) else mark_canceled now t).1
      finished t k = elim (Bool-cases (is_terminal t.status)) [
        | inl ended ↦ rw ended k
        | inr still_open ↦ rw still_open (mark_canceled-IsLogged t (open-HasRoom t k still_open))
      ]

  pub cancel_body-IsLogged :
      (ran : Option Adapter) (sv : Service) → Keeps IsLogged (cancel_body v now ran sv)
  unfolding cancel_body
  cancel_body-IsLogged ran sv = record {
    at = λ s h. elim (Bool-cases (is_terminal s.status)) [
      | inl ended ↦ rw ended h
      | inr still_open ↦ rw still_open (cancel_open-IsLogged ran s (open-HasRoom s h still_open))
    ];
  }
