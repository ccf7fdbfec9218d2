-- ===== src/Service/Logs.antt =====
-- Every request keeps the logs of the sessions: numbered, bounded, with room for the event that
-- ends a session that has not ended.
use local_agent_runtime.Base.{
  ℕ, ◌+◌, ◌≤◌, String, ◌≡◌, ◌-◌, ◌<◌, ◌++◌, member, leb-false→lt, refl, Bool, false, List, [], ◌∷◌,
  arith, Bool-cases, inl, inr, leb, length,
}
use local_agent_runtime.Failure.{Result, ok, err}
use local_agent_runtime.Effect.{resume}
use local_agent_runtime.Effect.Keeps.{Keeps, keeps_rules}
use local_agent_runtime.Session.{
  SessionRecord, SessionEvent, is_terminal, max_events, Payload, terminal_event_types, event_at,
  touch, add_event,
}
use local_agent_runtime.Session.Events.{
  IsNumbered, HasRoom, add_event-HasRoom, snoc-IsNumbered, length-snoc, appended,
}
use local_agent_runtime.Service.{Service, ensure_schedulable, started, start_turn, schedule}

-- The log of a session, whose room depends on whether the session has ended.
pub record Logged (events : List SessionEvent) (output_chars max_output_chars : ℕ) (ended : Bool)
    : Type 0 where
  pub numbered : IsNumbered events
  pub bounded : length events ≤ max_events
  pub open_room : ended ≡ false → length events + 1 ≤ max_events
  pub output_bounded : output_chars ≤ max_output_chars

abbrev pub IsLogged : SessionRecord → Type 0
IsLogged s = Logged s.events s.output_chars s.profile.limits.max_output_chars (is_terminal s.status)

pub HasRoom-IsLogged : (s : SessionRecord) → HasRoom s → IsLogged s
HasRoom-IsLogged s h = record {
  numbered = h.numbered;
  bounded = omega (arith, h.room);
  open_room = λ _. h.room;
  output_bounded = h.output_bounded;
}

pub IsLogged-HasRoom :
    (s : SessionRecord) → IsLogged s → length s.events + 1 ≤ max_events → HasRoom s
IsLogged-HasRoom s h room = record {
  numbered = h.numbered;
  room = room;
  output_bounded = h.output_bounded;
}

ensure_schedulable-room :
    (sv : Service) (s : SessionRecord)
    → ensure_schedulable sv s ≡ ok tt
    → length s.events + 1 ≤ max_events
unfolding ensure_schedulable
ensure_schedulable-room sv s h = ground arith

start_turn-HasRoom : (now : ℕ) → Keeps HasRoom (start_turn now)
unfolding start_turn started
start_turn-HasRoom now = search (keeps_rules, add_event-HasRoom) depth 8

snoc-Room :
    (s : SessionRecord) (e : SessionEvent)
    → IsLogged s
    → e.sequence ≡ length s.events + 1
    → length s.events < max_events - 1
    → HasRoom (record s { events = s.events ++ e ∷ [] })
snoc-Room s e h n free = record {
  numbered = snoc-IsNumbered s.events e h.numbered n;
  room = omega (arith, length-snoc s.events e);
  output_bounded = h.output_bounded;
}

pub schedule-IsLogged : (now : ℕ) (sv : Service) → Keeps IsLogged (schedule now sv)
unfolding schedule
schedule-IsLogged now sv = record { at = λ s h. checked s h (ensure_schedulable sv s) refl }
  where
    checked :
        (s : SessionRecord)
        → IsLogged s
        → (room : Result (Unit {0})) → ensure_schedulable sv s ≡ room
        → IsLogged (resume (room, s) (λ _. start_turn now)).1
    checked s h (err e) same = h
    checked s h (ok _) same =
        HasRoom-IsLogged (start_turn now s).1
          ((start_turn-HasRoom now).at s (IsLogged-HasRoom s h (ensure_schedulable-room sv s same)))

-- An event that does not end a session leaves a free place in the log, or is refused.
pub add_event-IsLogged :
    (now : ℕ) (event_type : String) (payload : Payload)
    → member event_type terminal_event_types ≡ false
    → Keeps IsLogged (add_event now event_type payload)
unfolding add_event touch
add_event-IsLogged now event_type payload plain = record {
  at = λ s h. elim (Bool-cases (leb (max_events - 1) (length s.events))) [
    | inl is_full ↦ rw (plain, is_full) h
    | inr free ↦
        rw (plain, free)
          (HasRoom-IsLogged (appended now event_type payload s)
            (snoc-Room s (event_at now event_type payload s.events) h refl (leb-false→lt _ _ free)))
  ];
}
