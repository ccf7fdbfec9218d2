-- ===== src/Service/Steps/Logged.antt =====
-- The logs of all the sessions that a service ever holds.
use mathlib.Core.Path.{subst}
use local_agent_runtime.Base.{
  not, has_key, ℕ, String, ◌≡◌, refl, Bool, true, false, Option, none, some, List, [], ◌∷◌,
  Bool-cases, inl, inr, put, without, AllValues, AllValues-lookup, AllValues-put, AllValues-without,
}
use local_agent_runtime.Failure.{Result, ok, err}
use local_agent_runtime.Contracts.{
  SessionStatus, created, running, waiting_for_tool, completed, failed, canceled,
}
use local_agent_runtime.Effect.{Action, lift, gets, ◌>>=◌}
use local_agent_runtime.Effect.Keeps.{
  Keeps, Keeps-bind, Keeps-lift, Keeps-gets, Keeps-bind-lift, Keeps-modify, Keeps-resume, after_if,
  keeps_rules,
}
use local_agent_runtime.Session.{SessionRecord, is_terminal}
use local_agent_runtime.Session.Advance.Turn.{advance}
use local_agent_runtime.Service.{
  Service, is_running, is_expired, placed, with_record, schedule, ensure_schedulable, is_enabled,
}
use local_agent_runtime.Service.Create.{Surroundings, NewSession, Admitted, evict, build_record}
use local_agent_runtime.Service.Create.Admission.{build_record-HasRoom}
use local_agent_runtime.Service.Opening.{
  evicted, opened, enter, create_session, create_admitted, opening_size,
}
use local_agent_runtime.Service.Logs.{
  IsLogged, IsLogged-HasRoom, HasRoom-IsLogged, schedule-IsLogged,
}
use local_agent_runtime.Service.Requests.{
  submit_body, submit_tool_results, continue_body, continue_session, cancel_body, cancel,
}
use local_agent_runtime.Service.Requests.Kept.{
  submit_body-IsLogged, continue_body-IsLogged, cancel_body-IsLogged, advance-IsLogged,
}
use local_agent_runtime.Service.Activation.{
  Activation, permit_change, change_activation, set_adapter_activation, same_flag,
}
use local_agent_runtime.Service.Steps.{
  Step, create_step, admitted_step, session_step, events_step, submit_step, continue_step,
  cancel_step, activation_step, select_step, turn_step, Reachable, just_started, then_step,
}
use local_agent_runtime.Service.Steps.Lookups.{
  find_record-Keeps, events_after-Keeps, with_record-Keeps,
}
use local_agent_runtime.Service.Activation.Policy.{start_service-fresh}

-- Every session of the table has its log in order.
abbrev pub AllLogged : Service → Type 0
AllLogged sv = AllValues IsLogged sv.sessions

placed-AllLogged :
    (id : String) (sv : Service) (p : Result (Unit {0}) × SessionRecord)
    → AllLogged sv
    → IsLogged p.1
    → AllLogged (placed id sv p).1
unfolding placed
placed-AllLogged id sv (ok _, s) h k = AllValues-put IsLogged id s sv.sessions h k
placed-AllLogged id sv (err e, s) h k = AllValues-put IsLogged id s sv.sessions h k

dropped-AllLogged :
    (id : String) (sv : Service)
    → AllLogged sv
    → AllLogged (record sv { sessions = without id sv.sessions })
dropped-AllLogged id sv h = AllValues-without IsLogged id sv.sessions h

with_record-AllLogged :
    (now : ℕ) (id : String) (body : Service → Action SessionRecord (Unit {0}))
    → ((sv : Service) → Keeps IsLogged (body sv))
    → Keeps AllLogged (with_record now id body)
with_record-AllLogged now id body keeps =
    with_record-Keeps AllLogged dropped-AllLogged now id body λ sv s found h.
      placed-AllLogged id sv (body sv s) h
        ((keeps sv).at s (AllValues-lookup IsLogged id sv.sessions h found))

evict-AllLogged :
    (now : ℕ) (m : List (String × SessionRecord))
    → AllValues IsLogged m
    → AllValues IsLogged (evict now m)
unfolding evict
evict-AllLogged now [] h = tt
evict-AllLogged now ((id, s) ∷ rest) h = elim (Bool-cases (is_expired now s)) [
  | inl old ↦ rw old (evict-AllLogged now rest h.1)
  | inr fresh ↦ rw fresh (h.0, evict-AllLogged now rest h.1)
]

evicted-AllLogged : (now : ℕ) (sv : Service) → AllLogged sv → AllLogged (evicted now sv)
unfolding evicted
evicted-AllLogged now sv h = evict-AllLogged now sv.sessions h

opened-AllLogged :
    (now : ℕ) (id : String) (s : SessionRecord) → IsLogged s → Keeps AllLogged (opened now id s)
unfolding opened
opened-AllLogged now id s k = record {
  at = λ sv h.
      let joined : Service = record sv { sessions = put id s sv.sessions } in
      placed-AllLogged id joined (schedule now joined s)
        (AllValues-put IsLogged id s sv.sessions h k) ((schedule-IsLogged now joined).at s k);
}

enter-AllLogged :
    (now : ℕ) (id : String) (s : SessionRecord) → IsLogged s → Keeps AllLogged (enter now id s)
unfolding enter
enter-AllLogged now id s k =
    Keeps-bind (lift (opening_size s))
      (λ _. gets (λ sv. ensure_schedulable sv s) >>= λ room. lift room >>= λ _. opened now id s)
      (Keeps-lift _)
      λ _.
        Keeps-bind (gets (λ sv. ensure_schedulable sv s))
          (λ room. lift room >>= λ _. opened now id s) (Keeps-gets _)
          λ room. Keeps-bind-lift room (λ _. opened now id s) λ _ _. opened-AllLogged now id s k

built-AllLogged :
    (env : Surroundings) (now : ℕ) (id : String) (args : NewSession) (a : Admitted)
    → Keeps AllLogged (lift (build_record env now id args a) >>= enter now id)
built-AllLogged env now id args a =
    Keeps-bind-lift (build_record env now id args a) (enter now id) λ s built.
      enter-AllLogged now id s (HasRoom-IsLogged s (build_record-HasRoom env now id args a s built))

create_admitted-AllLogged :
    (env : Surroundings) (now : ℕ) (id : String) (args : NewSession) (a : Admitted)
    → Keeps AllLogged (create_admitted env now id args a)
unfolding create_admitted
create_admitted-AllLogged env now id args a =
    search (keeps_rules, evicted-AllLogged, built-AllLogged) depth 24

create_session-AllLogged :
    (env : Surroundings) (now : ℕ) (id : String) (args : NewSession)
    → Keeps AllLogged (create_session env now id args)
unfolding create_session
create_session-AllLogged env now id args = search (keeps_rules, create_admitted-AllLogged) depth 12

running-open : (status : SessionStatus) → is_running status ≡ true → is_terminal status ≡ false
running-open running h = refl
running-open created h = cc
running-open waiting_for_tool h = cc
running-open completed h = cc
running-open failed h = cc
running-open canceled h = cc

-- Activation leaves the table of sessions as it is.
pub set_adapter_activation-sessions :
    (P : List (String × SessionRecord) → Type 0) (env : Surroundings) (port : Option Activation)
    (now : ℕ) (id : Option String) (enabled : Option Bool)
    → Keeps (λ (sv : Service). P sv.sessions) (set_adapter_activation env port now id enabled)
unfolding set_adapter_activation change_activation
set_adapter_activation-sessions P env port now none enabled = record { at = λ sv h. h }
set_adapter_activation-sessions P env port now (some id) none = record { at = λ sv h. h }
set_adapter_activation-sessions P env none now (some id) (some enabled) = record {
  at = λ sv h.
      after_if (λ (sv : Service). P sv.sessions) (has_key id sv.configuration.managed_profiles) _ _
        h h;
}
set_adapter_activation-sessions P env (some port) now (some id) (some enabled) = record {
  at = λ sv h.
      let kept : Service → Type 0 = λ sv. P sv.sessions in
      after_if kept (not (has_key id sv.configuration.managed_profiles)) _ _ h (
        after_if kept (same_flag (is_enabled sv id) enabled) _ _ h (
          Keeps-resume {P = kept} (permit_change env port now id enabled sv, sv) _ h
            (λ _.
              Keeps-modify
                (λ sv. record sv { activation_state = put id enabled sv.activation_state })
                (λ sv h. h))));
}

Step-AllLogged : {sv sv' : Service} → Step sv sv' → AllLogged sv → AllLogged sv'
unfolding submit_tool_results continue_session cancel
Step-AllLogged {sv} (create_step env now id args) h =
    (create_session-AllLogged env now id args).at sv h
Step-AllLogged {sv} (admitted_step {a = a} env before now id args _) h =
    (create_admitted-AllLogged env now id args a).at sv h
Step-AllLogged {sv} (session_step now id) h =
    (find_record-Keeps AllLogged dropped-AllLogged now id).at sv h
Step-AllLogged {sv} (events_step now id after) h =
    (events_after-Keeps AllLogged dropped-AllLogged now id after).at sv h
Step-AllLogged {sv} (submit_step now id results) h =
    (with_record-AllLogged now id (submit_body now results) (submit_body-IsLogged now results)).at
      sv h
Step-AllLogged {sv} (continue_step now supported id prompt effort) h =
    (with_record-AllLogged now id (continue_body now supported prompt effort)
        (continue_body-IsLogged now supported prompt effort)).at
      sv h
Step-AllLogged {sv} (cancel_step validators now ran id) h =
    (with_record-AllLogged now id (cancel_body validators now ran)
        (cancel_body-IsLogged validators now ran)).at
      sv h
Step-AllLogged {sv} (activation_step env port now id enabled) h =
    (set_adapter_activation-sessions (AllValues IsLogged) env port now id enabled).at sv h
Step-AllLogged {sv} (select_step write id answer _) h = h
Step-AllLogged {sv} (turn_step {s = s} validators adapter now id found active runs) h =
    let k = AllValues-lookup IsLogged id sv.sessions h found in
    AllValues-put IsLogged id (advance validators now adapter s) sv.sessions h (
      advance-IsLogged validators now adapter s
        (IsLogged-HasRoom s k (k.open_room (running-open s.status runs))))

-- Whatever requests and turns a service has answered since its start, in any order, whatever its
-- providers, catalogs and ports answered to each, every session of its table has a log numbered
-- 1, 2, …, of 512 events at most, with a free place for the event that ends the session if it has
-- not ended, and an output within its profile's limit.
pub Reachable-AllLogged : (sv : Service) → Reachable sv → AllLogged sv
Reachable-AllLogged sv (just_started configuration port h) =
    let (state, same, _) = start_service-fresh configuration port sv h in subst AllLogged same tt
Reachable-AllLogged _ (then_step {sv = before} r step) =
    Step-AllLogged step (Reachable-AllLogged before r)
