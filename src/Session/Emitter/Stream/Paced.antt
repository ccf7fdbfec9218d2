-- ===== src/Session/Emitter/Stream/Paced.antt =====
-- A stream never runs into the event limit.
use local_agent_runtime.Base.{
  ℕ, suc, ◌+◌, ◌*◌, ◌≤◌, ◌<◌, Text, ◌≡◌, refl, ap, true, false, not, ◌||◌, Option, none, some, List,
  [], ◌∷◌, ◌++◌, arith, Bool-cases, inl, inr, ◌⊎◌, ltb, ltb→lt, leb, leb→le, is_empty,
  if◌then◌else◌, length, length-append,
}
use local_agent_runtime.Failure.{Result, ok, err}
use local_agent_runtime.Effect.{Action, resume}
use local_agent_runtime.Session.{SessionRecord}
use local_agent_runtime.Session.Emitter.{
  TextDeltaEmitter, new_emitter, flush, flushed, extended, push, output_limit_exceeded,
  invalid_fragment,
}
use local_agent_runtime.Session.Emitter.Budget.{
  IsPaced, new_emitter-IsPaced, events_left, flush-eq, flushed-IsPaced,
}
use local_agent_runtime.Session.Emitter.Stream.{push_all}

is_empty-length : (xs : Text) → length xs ≡ 0 → is_empty xs ≡ true
is_empty-length [] h = refl
is_empty-length (x ∷ xs) h = absurd (omega arith)

-- A fragment is taken, or refused for its form or for the output limit, and for nothing else.
abbrev pub IsHarmless : Result (Unit {0}) → Type 0
IsHarmless r = (r ≡ ok tt) ⊎ (r ≡ err invalid_fragment) ⊎ (r ≡ err output_limit_exceeded)

abbrev Kept : Result (Unit {0}) × TextDeltaEmitter → Type 0
Kept (r, e) = IsPaced e × IsHarmless r

module _ (now : ℕ) (e : TextDeltaEmitter) (h : IsPaced e) where
  -- a fragment that fits the output limit
  module _ (c : ℕ) (rest : Text)
      (within : e.session.output_chars + e.text_chars + length (c ∷ rest)
        ≤ e.session.profile.limits.max_output_chars) where
    grown : length (e.pending ++ c ∷ rest) ≡ length e.pending + length (c ∷ rest)
    grown = length-append e.pending (c ∷ rest)

    push_flush :
        (k : ℕ)
        → e.emitted_events ≡ k
        → e.emitted_events < e.event_budget
        → 1 + e.chunk_chars * k ≤ e.text_chars + length (c ∷ rest)
        → Kept (flush now (extended (c ∷ rest) e))
    unfolding flushed
    push_flush k count lt spent =
        rw (flush-eq now (extended (c ∷ rest) e) (omega (arith, grown)) lt h.budget_room) (
          flushed-IsPaced now (extended (c ∷ rest) e) k h.budget_two count lt h.budget_room
              (omega arith) h.chunk_covers spent,
          inl refl,
        )

    first_push : e.emitted_once ≡ false → Kept (flush now (extended (c ∷ rest) e))
    first_push once =
        let (count, _) = h.silent once in
        push_flush 0 count (omega (arith, h.budget_two)) (omega arith)

    later_push :
        e.emitted_once ≡ true
        → leb e.chunk_chars (length (e.pending ++ c ∷ rest)) ≡ true
        → Kept (flush now (extended (c ∷ rest) e))
    later_push once long =
        let (k, count, spent) = h.paced once in
        let full = leb→le _ _ long in
        let left =
          events_left e.chunk_chars k e.event_budget e.session.profile.limits.max_output_chars
            e.session.output_chars (e.text_chars + length (c ∷ rest)) (omega arith) (omega arith)
            h.chunk_covers in
        push_flush (suc k) count (omega arith) (omega (arith, grown))

    wait_push : e.emitted_once ≡ true → IsPaced (extended (c ∷ rest) e)
    wait_push once =
        let (k, count, spent) = h.paced once in
        record {
          budget_two = h.budget_two;
          budget_room = h.budget_room;
          emitted_le = h.emitted_le;
          within = omega arith;
          chunk_covers = h.chunk_covers;
          silent = λ no_event. cc;
          paced = λ _. (k, count, omega (arith, grown));
        }

    taken : Kept (
        if not e.emitted_once || leb e.chunk_chars (length (e.pending ++ c ∷ rest))
        then flush now (extended (c ∷ rest) e)
        else (ok tt, extended (c ∷ rest) e))
    taken =
        elim (Bool-cases
          (not e.emitted_once || leb e.chunk_chars (length (e.pending ++ c ∷ rest)))) [
            | inl due ↦ rw due (elim (Bool-cases e.emitted_once) [
              | inl once ↦ later_push once (ground arith)
              | inr never ↦ first_push never
            ])
            | inr waits ↦ rw waits (wait_push (ground arith), inl refl)
          ]

  push-IsPaced : (delta : Option Text) → Kept (push now delta e)
  unfolding push
  push-IsPaced none = (h, inr (inl refl))
  push-IsPaced (some []) = (h, inr (inl refl))
  push-IsPaced (some (c ∷ rest)) =
      elim (Bool-cases (
        ltb e.session.profile.limits.max_output_chars
          (e.session.output_chars + e.text_chars + length (c ∷ rest)))) [
            | inl over ↦ rw over (h, inr (inr refl))
            | inr fitting ↦ rw fitting (taken c rest (ground arith))
          ]

  pending_events_left : 0 < length e.pending → e.emitted_events < e.event_budget
  pending_events_left some_left = elim (Bool-cases e.emitted_once) [
    | inl once ↦
        let (k, count, spent) = h.paced once in
        let left =
          events_left e.chunk_chars k e.event_budget e.session.profile.limits.max_output_chars
            e.session.output_chars e.text_chars (omega arith) h.within h.chunk_covers in
        omega arith
    | inr never ↦ absurd (omega (arith, (h.silent never).1))
  ]

  last_flush : (flush now e).0 ≡ ok tt
  unfolding flush flushed
  last_flush = elim (Bool-cases (ltb 0 (length e.pending))) [
    | inl some_left ↦
        ap (λ (p : Result (Unit {0}) × TextDeltaEmitter). p.0)
          (flush-eq now e (ltb→lt _ _ some_left) (pending_events_left (ltb→lt _ _ some_left))
            h.budget_room)
    | inr nothing ↦ ground (arith, is_empty-length e.pending)
  ]

after_push :
    (p : Result (Unit {0}) × TextDeltaEmitter) (f : Unit {0} → Action TextDeltaEmitter (Unit {0}))
    → Kept p
    → ((e : TextDeltaEmitter) → IsPaced e → Kept (f tt e))
    → Kept (resume p f)
after_push (ok _, e) f k later = later e k.0
after_push (err failure, e) f k later = k

push_all-Kept :
    (now : ℕ) (deltas : List (Option Text)) (e : TextDeltaEmitter)
    → IsPaced e
    → Kept (push_all now deltas e)
unfolding push_all
push_all-Kept now [] e h = (h, inl refl)
push_all-Kept now (delta ∷ deltas) e h =
    after_push (push now delta e) (λ _. push_all now deltas) (push-IsPaced now e h delta)
      (push_all-Kept now deltas)

-- Streaming never exhausts the session's events. From a session within its output limit whose
-- emitter could be made, whatever fragments arrive, each is taken or refused for its form or for
-- the output limit, never for the event limit, and the flush at the end of the stream succeeds.
pub stream-IsHarmless :
    (now : ℕ) (s : SessionRecord) (e : TextDeltaEmitter) (deltas : List (Option Text))
    → s.output_chars ≤ s.profile.limits.max_output_chars
    → new_emitter s ≡ ok e
    → IsHarmless (push_all now deltas e).0 × ((flush now (push_all now deltas e).1).0 ≡ ok tt)
stream-IsHarmless now s e deltas within made =
    let (paced, harmless) = push_all-Kept now deltas e (new_emitter-IsPaced s e within made) in
    (harmless, last_flush now (push_all now deltas e).1 paced)
