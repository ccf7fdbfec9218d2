-- ===== src/Service/Requests/Running.antt =====
-- The requests on one session make it run only where fewer than eight sessions do.
use local_agent_runtime.Base.{
  ℕ, ◌≤◌, ◌<◌, String, ◌≡◌, refl, true, false, ◌⊎◌, inl, inr, Option, List, arith, Bool-cases,
  if◌then◌else◌, leb, length,
}
use local_agent_runtime.Failure.{Result, ok, err}
use local_agent_runtime.Json.{Json}
use local_agent_runtime.Contracts.{ReasoningEffort, ToolResult, SessionStatus}
use local_agent_runtime.Effect.{resume}
use local_agent_runtime.Effect.Keeps.{Keeps, after_if, keeps_rules}
use local_agent_runtime.Session.{SessionRecord, Payload, add_event, touch, event_limit, is_terminal}
use local_agent_runtime.Session.Host.{Validators, Adapter}
use local_agent_runtime.Service.{
  Service, is_running, is_active, running_count, schedule, start_turn, ensure_schedulable,
}
use local_agent_runtime.Service.Requests.{
  submit_body, continue_body, join_task, mark_canceled, cancel_open, cancel_body,
}

-- 1 for a session that runs
abbrev pub runs : SessionRecord → ℕ
runs s = if is_running s.status then 1 else 0

pub runs-le : (s : SessionRecord) → runs s ≤ 1
runs-le s = ground arith

-- What a request may leave of `before`: it runs only if it ran, or if there is room.
abbrev pub MayRun : Service → SessionRecord → SessionRecord → Type 0
MayRun sv before s = (runs s ≤ runs before) ⊎ (running_count sv.sessions < 8)

add_event-MayRun :
    (sv : Service) (before : SessionRecord) (now : ℕ) (event_type : String) (payload : Payload)
    → Keeps (MayRun sv before) (add_event now event_type payload)
unfolding add_event touch
add_event-MayRun sv before now event_type payload = record {
  at = λ s h. after_if (MayRun sv before) (leb (event_limit event_type) (length s.events)) _ _ h h;
}

-- A session that may be scheduled runs already, or has room.
pub ensure_schedulable-runs :
    (sv : Service) (s : SessionRecord)
    → ensure_schedulable sv s ≡ ok tt
    → (runs s ≡ 1) ⊎ (running_count sv.sessions < 8)
unfolding ensure_schedulable
ensure_schedulable-runs sv s h = elim (Bool-cases (leb 8 (running_count sv.sessions))) [
  | inl full ↦ elim (Bool-cases (is_running s.status)) [
    | inl already ↦ inl (rw already refl)
    | inr idle ↦ absurd (ground arith)
  ]
  | inr room ↦ inr (ground arith)
]

schedule-MayRun :
    (sv : Service) (before : SessionRecord) (now : ℕ) → Keeps (MayRun sv before) (schedule now sv)
unfolding schedule
schedule-MayRun sv before now = record { at = λ s h. checked s h (ensure_schedulable sv s) refl }
  where
    scheduled :
        (s t : SessionRecord)
        → MayRun sv before s
        → (runs s ≡ 1) ⊎ (running_count sv.sessions < 8)
        → MayRun sv before t
    scheduled s t (inr room) k = inr room
    scheduled s t (inl le) (inr room) = inr room
    scheduled s t (inl le) (inl already) = inl (omega (arith, le, already, runs-le t))

    checked :
        (s : SessionRecord)
        → MayRun sv before s
        → (room : Result (Unit {0})) → ensure_schedulable sv s ≡ room
        → MayRun sv before (resume (room, s) (λ _. start_turn now)).1
    checked s h (err e) same = h
    checked s h (ok _) same = scheduled s (start_turn now s).1 h (ensure_schedulable-runs sv s same)

pub submit_body-MayRun :
    (now : ℕ) (results : List ToolResult) (sv : Service) (before : SessionRecord)
    → Keeps (MayRun sv before) (submit_body now results sv)
unfolding submit_body
submit_body-MayRun now results sv before =
    search (keeps_rules, add_event-MayRun, schedule-MayRun) depth 24

pub continue_body-MayRun :
    (now : ℕ) (supported : List ReasoningEffort) (prompt effort : Json) (sv : Service)
    (before : SessionRecord)
    → Keeps (MayRun sv before) (continue_body now supported prompt effort sv)
unfolding continue_body
continue_body-MayRun now supported prompt effort sv before =
    search (keeps_rules, add_event-MayRun, schedule-MayRun) depth 24

ended-runs : (status : SessionStatus) → is_terminal status ≡ true → is_running status ≡ false
ended-runs status h = ground arith

mark_canceled-runs : (now : ℕ) (s : SessionRecord) → runs (mark_canceled now s).1 ≡ 0
unfolding mark_canceled add_event touch
mark_canceled-runs now s =
    after_if (λ t. runs t ≡ 0) (leb (event_limit "session_canceled") (length s.events)) _ _ refl
      refl

cancel_open-runs :
    (v : Validators) (now : ℕ) (ran : Option Adapter) (s : SessionRecord)
    → runs (cancel_open v now ran s).1 ≡ 0
unfolding cancel_open
cancel_open-runs v now ran s =
    let joined = if is_active s.task then join_task v now ran s else s in
    elim (Bool-cases (is_terminal joined.status)) [
      | inl ended ↦ let idle = ended-runs joined.status ended in rw (ended, idle) refl
      | inr open_still ↦ rw open_still (mark_canceled-runs now joined)
    ]

pub cancel_body-MayRun :
    (v : Validators) (now : ℕ) (ran : Option Adapter) (sv : Service) (s : SessionRecord)
    → MayRun sv s (cancel_body v now ran sv s).1
unfolding cancel_body
cancel_body-MayRun v now ran sv s =
    after_if (MayRun sv s) (is_terminal s.status) _ _ (inl (omega arith))
      (inl (omega (arith, cancel_open-runs v now ran s)))
