-- ===== src/Session/Advance/Room.antt =====
-- The provider's call keeps the room that the log needs to end, however it ends.
use mathlib.Core.Path.{subst}
use local_agent_runtime.Base.{
  ℕ, ◌+◌, Text, ◌≡◌, refl, not, ◌&&◌, ◌||◌, Option, none, some, List, [], ◌∷◌, ◌++◌, Bool-cases,
  inl, inr, ltb, leb, is_empty, is_some, length,
}
use local_agent_runtime.Failure.{Result, ok, err, ok-injective}
use local_agent_runtime.Contracts.{ContextWindow, CompletionResult, Invocation}
use local_agent_runtime.Effect.Keeps.{Keeps, Keeps-bind, keeps_rules}
use local_agent_runtime.Session.{SessionRecord, text_delta}
use local_agent_runtime.Session.Events.{HasRoom, add_event-HasRoom}
use local_agent_runtime.Session.Host.{Adapter}
use local_agent_runtime.Session.Emitter.{
  TextDeltaEmitter, new_emitter, flush, flushed, extended, push, budget_for,
}
use local_agent_runtime.Session.Emitter.Stream.{push_all}
use local_agent_runtime.Session.Advance.{
  plan_session, stream_from, stream_call, provider_call, call_provider,
}

abbrev EmitterRoom : TextDeltaEmitter → Type 0
EmitterRoom e = HasRoom e.session

flushed-room :
    (e : TextDeltaEmitter) (p : Result (Unit {0}) × SessionRecord)
    → HasRoom p.1
    → EmitterRoom (flushed e p).1
unfolding flushed
flushed-room e (ok _, s) h = h
flushed-room e (err failure, s) h = h

flush-room : (now : ℕ) → Keeps EmitterRoom (flush now)
unfolding flush
flush-room now = record {
  at = λ e h.
      let added = flushed-room e _ (
        (add_event-HasRoom now "assistant_text_delta" (text_delta e.round e.pending) refl).at
          e.session h) in
      elim (Bool-cases (is_empty e.pending)) [
        | inl nothing ↦ rw nothing h
        | inr pending ↦ elim (Bool-cases (leb e.event_budget e.emitted_events)) [
          | inl spent ↦ rw (pending, spent) h
          | inr left ↦ rw (pending, left) added
        ]
      ];
}

push-room : (now : ℕ) (delta : Option Text) → Keeps EmitterRoom (push now delta)
unfolding push
push-room now none = record { at = λ e h. h }
push-room now (some []) = record { at = λ e h. h }
push-room now (some (c ∷ rest)) = record {
  at = λ e h.
      let due = not e.emitted_once || leb e.chunk_chars (length (e.pending ++ c ∷ rest)) in
      elim (Bool-cases (
        ltb e.session.profile.limits.max_output_chars
          (e.session.output_chars + e.text_chars + length (c ∷ rest)))) [
            | inl over ↦ rw over h
            | inr fits ↦ rw fits (elim (Bool-cases due) [
              | inl now_due ↦ rw now_due ((flush-room now).at (extended (c ∷ rest) e) h)
              | inr waits ↦ rw waits h
            ])
          ];
}

push_all-room : (now : ℕ) (deltas : List (Option Text)) → Keeps EmitterRoom (push_all now deltas)
unfolding push_all
push_all-room now [] = search keeps_rules
push_all-room now (delta ∷ deltas) =
    Keeps-bind (push now delta) _ (push-room now delta) (λ _. push_all-room now deltas)

plan_session-room :
    (now : ℕ) (adapter : Adapter) (window : ContextWindow)
    → Keeps HasRoom (plan_session now adapter window)
unfolding plan_session
plan_session-room now adapter window = search (keeps_rules, add_event-HasRoom) depth 12

stream_from-room :
    (now : ℕ) (run : List (Option Text) × Result CompletionResult) (e : TextDeltaEmitter)
    → EmitterRoom e
    → HasRoom (stream_from now run e).1
unfolding stream_from
stream_from-room now (deltas, outcome) e h =
    (flush-room now).at (push_all now deltas e).1 ((push_all-room now deltas).at e h)

new_emitter-room :
    (s : SessionRecord) (e : TextDeltaEmitter) → HasRoom s → new_emitter s ≡ ok e → EmitterRoom e
unfolding new_emitter
new_emitter-room s e h made = elim (Bool-cases (ltb (budget_for s) 2)) [
  | inl small ↦ cc (rw small at made)
  | inr enough ↦ subst EmitterRoom (ok-injective (rw enough at made)) h
]

stream_call-room :
    (now : ℕ) (streaming : Option (Invocation → List (Option Text) × Result CompletionResult))
    (invocation : Invocation)
    → Keeps HasRoom (stream_call now streaming invocation)
unfolding stream_call
stream_call-room now none invocation = record { at = λ s h. h }
stream_call-room now (some streaming) invocation = record {
  at = λ s h. streams_from s h (new_emitter s) refl;
}
  where
    streams_from :
        (s : SessionRecord)
        → HasRoom s
        → (made : Result TextDeltaEmitter) → new_emitter s ≡ made
        → HasRoom
            (elim made as (λ _. Result CompletionResult × SessionRecord) [
              | err e ↦ (err e, s)
              | ok emitter ↦ stream_from now (streaming invocation) emitter
            ]).1
    streams_from s h (err e) made = h
    streams_from s h (ok emitter) made =
        stream_from-room now (streaming invocation) emitter (new_emitter-room s emitter h made)

provider_call-room :
    (now : ℕ) (adapter : Adapter) (invocation : Invocation)
    → Keeps HasRoom (provider_call now adapter invocation)
unfolding provider_call
provider_call-room now adapter invocation = record {
  at = λ s h. elim (Bool-cases (not (is_some s.output_schema) && adapter.token_streaming)) [
    | inl streams ↦ rw streams ((stream_call-room now adapter.complete_streaming invocation).at s h)
    | inr whole ↦ rw whole h
  ];
}

-- However the call ends, the log keeps its room.
pub call_provider-room : (now : ℕ) (adapter : Adapter) → Keeps HasRoom (call_provider now adapter)
unfolding call_provider
call_provider-room now adapter =
    search (keeps_rules, plan_session-room, provider_call-room) depth 12
