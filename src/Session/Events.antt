-- ===== src/Session/Events.antt =====
-- The event log: its events are numbered from 1 without gaps, and there is always room for the
-- event that ends a session.
use mathlib.Core.Path.{ap₂}
use local_agent_runtime.Base.{
  ℕ, zero, suc, ◌+◌, ◌-◌, ◌≤◌, String, ◌≡◌, refl, sym, ap, ◌∙◌, ◌⊎◌, true, false, List, [], ◌∷◌,
  ◌++◌, map, arith, Bool-cases, inl, inr, leb, leb-false→lt, length, length-append, range_from,
  member,
}
use local_agent_runtime.Failure.{ok, err}
use local_agent_runtime.Effect.Keeps.{Keeps}
use local_agent_runtime.Session.{
  SessionRecord, SessionEvent, Payload, max_events, terminal_event_types, event_at, touch,
  add_event, event_limit_exceeded,
}

-- The sequence numbers are 1, 2, and so on.
abbrev pub IsNumbered : List SessionEvent → Type 0
IsNumbered events = map (λ (e : SessionEvent). e.sequence) events ≡ range_from 1 (length events)

-- A log with room for one more event, which is kept free for the one that ends the session, and
-- an output within its limit.
pub record Room (events : List SessionEvent) (output_chars max_output_chars : ℕ) : Type 0 where
  pub numbered : IsNumbered events
  pub room : length events + 1 ≤ max_events
  pub output_bounded : output_chars ≤ max_output_chars

-- What a session satisfies while it can still end.
abbrev pub HasRoom : SessionRecord → Type 0
HasRoom s = Room s.events s.output_chars s.profile.limits.max_output_chars

range_from-snoc : (start n : ℕ) → range_from start (suc n) ≡ range_from start n ++ (start + n) ∷ []
range_from-snoc start zero = ap (λ k. k ∷ []) (omega arith)
range_from-snoc start (suc n) =
    ap (λ rest. start ∷ rest)
      (range_from-snoc (suc start) n
        ∙ ap (λ (k : ℕ). range_from (suc start) n ++ k ∷ []) (omega arith))

map-snoc :
    (f : SessionEvent → ℕ) (es : List SessionEvent) (e : SessionEvent)
    → map f (es ++ e ∷ []) ≡ map f es ++ f e ∷ []
map-snoc f [] e = refl
map-snoc f (x ∷ es) e = ap (λ rest. f x ∷ rest) (map-snoc f es e)

pub length-snoc :
    (es : List SessionEvent) (e : SessionEvent) → length (es ++ e ∷ []) ≡ suc (length es)
length-snoc es e = omega (arith, length-append es (e ∷ []))

pub snoc-IsNumbered :
    (es : List SessionEvent) (e : SessionEvent)
    → IsNumbered es
    → e.sequence ≡ length es + 1
    → IsNumbered (es ++ e ∷ [])
snoc-IsNumbered es e h n =
    map-snoc (λ (e : SessionEvent). e.sequence) es e
    ∙ (ap₂ (λ (ns : List ℕ) (k : ℕ). ns ++ k ∷ []) h (n ∙ omega arith)
        ∙ (sym (range_from-snoc 1 (length es)) ∙ ap (range_from 1) (sym (length-snoc es e))))

-- The session after an event that fits.
abbrev pub appended : ℕ → String → Payload → SessionRecord → SessionRecord
appended now event_type payload s = record (touch now s) {
  events = s.events ++ event_at now event_type payload s.events ∷ [];
}

-- An event that does not end the session is refused for want of room, or leaves room.
pub add_event-plain :
    (now : ℕ) (event_type : String) (payload : Payload) (s : SessionRecord)
    → member event_type terminal_event_types ≡ false
    → HasRoom s
    → (add_event now event_type payload s ≡ (err event_limit_exceeded, touch now s))
      ⊎ ((add_event now event_type payload s ≡ (ok tt, appended now event_type payload s))
          × HasRoom (appended now event_type payload s))
unfolding add_event
add_event-plain now event_type payload s plain h =
    elim (Bool-cases (leb (max_events - 1) (length s.events))) [
      | inl is_full ↦ inl (rw (plain, is_full))
      | inr free ↦ inr (
        rw (plain, free),
        record {
          numbered =
              snoc-IsNumbered s.events (event_at now event_type payload s.events) h.numbered refl;
          room = omega (
            arith,
            length-snoc s.events (event_at now event_type payload s.events),
            leb-false→lt _ _ free,
          );
          output_bounded = h.output_bounded;
        },
      )
    ]

pub touch-HasRoom : (now : ℕ) (s : SessionRecord) → HasRoom s → HasRoom (touch now s)
unfolding touch
touch-HasRoom now s h = h

-- An event that does not end the session keeps the log's room.
pub add_event-HasRoom :
    (now : ℕ) (event_type : String) (payload : Payload)
    → member event_type terminal_event_types ≡ false
    → Keeps HasRoom (add_event now event_type payload)
add_event-HasRoom now event_type payload plain = record {
  at = λ s h. elim (add_event-plain now event_type payload s plain h) [
    | inl refused ↦ rw refused (touch-HasRoom now s h)
    | inr (taken, later) ↦ rw taken later
  ];
}

-- While a session's log has room, the event that ends it is recorded.
pub add_event-terminal :
    (now : ℕ) (event_type : String) (payload : Payload) (s : SessionRecord)
    → member event_type terminal_event_types ≡ true
    → HasRoom s
    → add_event now event_type payload s ≡ (ok tt, appended now event_type payload s)
unfolding add_event
add_event-terminal now event_type payload s terminal h =
    let free : leb max_events (length s.events) ≡ false = ground arith in rw (terminal, free)

-- A log after its last event.
pub record IsEnded (events : List SessionEvent) (event_type : String) : Type 0 where
  pub numbered : IsNumbered events
  pub bounded : length events ≤ max_events
  pub last_event :
      (before : List SessionEvent) × (e : SessionEvent) × (events ≡ before ++ e ∷ [])
      × (e.type ≡ event_type)

pub appended-IsEnded :
    (now : ℕ) (event_type : String) (payload : Payload) (s : SessionRecord)
    → HasRoom s
    → IsEnded (appended now event_type payload s).events event_type
appended-IsEnded now event_type payload s h = record {
  numbered = snoc-IsNumbered s.events (event_at now event_type payload s.events) h.numbered refl;
  bounded = omega (arith, length-snoc s.events (event_at now event_type payload s.events), h.room);
  last_event = (s.events, event_at now event_type payload s.events, refl, refl);
}
