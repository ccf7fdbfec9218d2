-- ===== src/Session/Emitter.antt =====
-- `_TextDeltaEmitter` of service.py. The emitter writes events to its session, so its state
-- includes the session. A fragment that is not a `str` is `none`.
pub mod Budget
pub mod Stream
use local_agent_runtime.Base.{
  ℕ, ◌+◌, ◌-◌, ◌/◌, Text, Bool, true, false, not, ◌||◌, Option, none, some, List, [], ◌∷◌, ◌++◌,
  ltb, leb, if◌then◌else◌, length, is_empty,
}
use local_agent_runtime.Failure.{Result, ok, err, runtime_failure, ◌>>=◌}
use local_agent_runtime.Context.Estimate.{at_most, at_least}
use local_agent_runtime.Effect.{Action}
use local_agent_runtime.Session.{
  SessionRecord, text_delta, max_events, stream_event_chars, stream_event_budget,
  event_limit_exceeded, add_event,
}

pub record TextDeltaEmitter : Type 0 where
  pub session : SessionRecord
  pub round : ℕ
  pub pending : Text
  -- the parts joined, which is what `text` returns
  pub text : Text
  pub text_chars : ℕ
  pub emitted_once : Bool
  pub emitted_events : ℕ
  pub event_budget : ℕ
  pub chunk_chars : ℕ

abbrev pub output_limit_exceeded : local_agent_runtime.Failure.Failure
output_limit_exceeded =
    runtime_failure "output_limit_exceeded" "The session output exceeds its limit" 400

abbrev pub invalid_fragment : local_agent_runtime.Failure.Failure
invalid_fragment =
    runtime_failure "invalid_provider_response" "The provider returned an invalid text fragment" 502

-- The numbers here do not go below 0 where Python's would: a budget below 2 is refused either
-- way, and a negative rest of characters gives the least chunk size either way.
abbrev pub budget_for : SessionRecord → ℕ
budget_for s = at_most stream_event_budget (max_events - length s.events - 1)

abbrev pub chunk_for : SessionRecord → ℕ
chunk_for s =
    let remaining = s.profile.limits.max_output_chars - s.output_chars in
    let later = budget_for s - 1 in at_least stream_event_chars ((remaining + later - 1) / later)

-- `__init__`
unfoldable pub new_emitter : SessionRecord → Result TextDeltaEmitter
new_emitter s =
    if ltb (budget_for s) 2
    then err event_limit_exceeded
    else ok (record {
      session = s;
      round = s.provider_calls;
      pending = [];
      text = [];
      text_chars = 0;
      emitted_once = false;
      emitted_events = 0;
      event_budget = budget_for s;
      chunk_chars = chunk_for s;
    })

-- What `flush` does once its event is recorded, or not.
unfoldable pub flushed :
    TextDeltaEmitter → Result (Unit {0}) × SessionRecord → Result (Unit {0}) × TextDeltaEmitter
flushed e (err failure, s) = (err failure, record e { session = s })
flushed e (ok _, s) = (
  ok tt,
  record e {
    session = s;
    pending = [];
    emitted_once = true;
    emitted_events = e.emitted_events + 1;
  },
)

unfoldable pub flush : (now : ℕ) → Action TextDeltaEmitter (Unit {0})
unfolding flushed
flush now e =
    if is_empty e.pending
    then (ok tt, e)
    else if leb e.event_budget e.emitted_events
    then (err event_limit_exceeded, e)
    else flushed e (add_event now "assistant_text_delta" (text_delta e.round e.pending) e.session)

-- The fields of the emitter that `push` adds a fragment to.
abbrev pub extended : Text → TextDeltaEmitter → TextDeltaEmitter
extended delta e = record e {
  text = e.text ++ delta;
  text_chars = e.text_chars + length delta;
  pending = e.pending ++ delta;
}

unfoldable pub push : (now : ℕ) → Option Text → Action TextDeltaEmitter (Unit {0})
push now none e = (err invalid_fragment, e)
push now (some []) e = (err invalid_fragment, e)
push now (some (c ∷ delta)) e =
    if ltb e.session.profile.limits.max_output_chars
      (e.session.output_chars + e.text_chars + length (c ∷ delta))
    then (err output_limit_exceeded, e)
    else if not e.emitted_once || leb e.chunk_chars (length (e.pending ++ c ∷ delta))
    then flush now (extended (c ∷ delta) e)
    else (ok tt, extended (c ∷ delta) e)
