-- ===== src/Session/Emitter/Budget.antt =====
-- The event budget of a stream suffices: whatever fragments a provider sends, within the output
-- limit, no flush runs into the event limit.
use mathlib.Core.Path.{subst}
use local_agent_runtime.Base.{
  ℕ, suc, ◌+◌, ◌-◌, ◌*◌, ◌/◌, ◌≤◌, ◌<◌, Text, ◌≡◌, refl, true, false, [], ◌∷◌, arith, Bool-cases,
  inl, inr, ltb, ltb→lt, leb, length,
}
use local_agent_runtime.Context.Estimate.{at_least}
use local_agent_runtime.Failure.{ok, ok-injective}
use local_agent_runtime.Session.{SessionRecord, max_events, add_event, text_delta, touch, event_at}
use local_agent_runtime.Session.Events.{appended, length-snoc}
use local_agent_runtime.Session.Emitter.{TextDeltaEmitter, budget_for, new_emitter, flush, flushed}

-- What holds of an emitter between two fragments. The characters that are out by events are at
-- least one for the first event and a whole chunk for each later one.
pub record IsPaced (e : TextDeltaEmitter) : Type 0 where
  pub budget_two : 2 ≤ e.event_budget
  pub budget_room : length e.session.events + (e.event_budget - e.emitted_events) + 1 ≤ max_events
  pub emitted_le : e.emitted_events ≤ e.event_budget
  pub within : e.session.output_chars + e.text_chars ≤ e.session.profile.limits.max_output_chars
  pub chunk_covers :
      e.session.profile.limits.max_output_chars
      ≤ e.session.output_chars + e.chunk_chars * (e.event_budget - 1)
  pub silent : e.emitted_once ≡ false → (e.emitted_events ≡ 0) × (length e.pending ≡ 0)
  pub paced :
      e.emitted_once ≡ true
      → (k : ℕ) × (e.emitted_events ≡ suc k)
        × (1 + e.chunk_chars * k + length e.pending ≤ e.text_chars)

-- A fragment's event fits, because the budget is not used up.
flush_lem :
    (now : ℕ) (e : TextDeltaEmitter) (c : ℕ) (rest : Text)
    → e.pending ≡ c ∷ rest
    → e.emitted_events < e.event_budget
    → length e.session.events + (e.event_budget - e.emitted_events) + 1 ≤ max_events
    → flush now e
      ≡ flushed e
          (ok tt, appended now "assistant_text_delta" (text_delta e.round e.pending) e.session)
unfolding flush add_event
flush_lem now e c rest p lt room = ground arith

-- A rounded-up quotient covers what it divides.
ceil-covers : (n d : ℕ) → 0 < d → n ≤ (n + d - 1) / d * d
ceil-covers n d h = grind arith

mul_mono : (a b d : ℕ) → a ≤ b → a * d ≤ b * d
mul_mono a b d h = grind arith

at_least-mul : (a x d : ℕ) → x * d ≤ at_least a x * d
at_least-mul a x d = elim (Bool-cases (leb a x)) [
  | inl above ↦ rw above (omega arith)
  | inr below ↦ rw below (mul_mono x a d (ground arith))
]

chunk_covers_rest :
    (limit out budget : ℕ)
    → 2 ≤ budget
    → limit ≤ out + at_least 128 ((limit - out + (budget - 1) - 1) / (budget - 1)) * (budget - 1)
chunk_covers_rest limit out budget h =
    let covers = ceil-covers (limit - out) (budget - 1) (omega arith) in
    omega (arith, at_least-mul 128 ((limit - out + (budget - 1) - 1) / (budget - 1)) (budget - 1))

pub new_emitter-IsPaced :
    (s : SessionRecord) (e : TextDeltaEmitter)
    → s.output_chars ≤ s.profile.limits.max_output_chars
    → new_emitter s ≡ ok e
    → IsPaced e
unfolding new_emitter
new_emitter-IsPaced s e within h = elim (Bool-cases (ltb (budget_for s) 2)) [
  | inl small ↦ cc (rw small at h)
  | inr enough ↦ subst IsPaced (ok-injective (rw enough at h)) (record {
    budget_two = ground arith;
    budget_room = ground arith;
    emitted_le = omega arith;
    within = omega arith;
    chunk_covers =
        chunk_covers_rest s.profile.limits.max_output_chars s.output_chars (budget_for s)
          (ground arith);
    silent = λ e. (refl, refl);
    paced = λ e. cc;
  })
]

mul_mono-absurd : (a b d : ℕ) → b ≤ a → d * a < d * b → ⊥
mul_mono-absurd a b d h lt = grind arith

mul-lt-cancel : (a b d : ℕ) → d * a < d * b → a < b
mul-lt-cancel a b d h = elim (Bool-cases (ltb a b)) [
  | inl lt ↦ ltb→lt a b lt
  | inr ge ↦ absurd (mul_mono-absurd a b d (ground arith) h)
]

-- After `k + 1` events the characters left cannot fill the budget.
pub events_left :
    (chunk k budget limit out text : ℕ)
    → 1 + chunk * k < text
    → out + text ≤ limit
    → limit ≤ out + chunk * (budget - 1)
    → suc k < budget
events_left chunk k budget limit out text h within covers =
    let lt = mul-lt-cancel k (budget - 1) chunk (omega arith) in omega arith

nonempty : (xs : Text) → 0 < length xs → (c : ℕ) × (rest : Text) × (xs ≡ c ∷ rest)
nonempty [] h = absurd (omega arith)
nonempty (c ∷ rest) h = (c, rest, refl)

-- An emitter that has pending text and events left, and how its flush ends.
pub flush-eq :
    (now : ℕ) (e : TextDeltaEmitter)
    → 0 < length e.pending
    → e.emitted_events < e.event_budget
    → length e.session.events + (e.event_budget - e.emitted_events) + 1 ≤ max_events
    → flush now e
      ≡ flushed e
          (ok tt, appended now "assistant_text_delta" (text_delta e.round e.pending) e.session)
flush-eq now e h lt room =
    let (c, rest, p) = nonempty e.pending h in flush_lem now e c rest p lt room

-- What an emitter with events left satisfies after a flush of its text.
pub flushed-IsPaced :
    (now : ℕ) (e : TextDeltaEmitter) (k : ℕ)
    → 2 ≤ e.event_budget
    → e.emitted_events ≡ k
    → e.emitted_events < e.event_budget
    → length e.session.events + (e.event_budget - e.emitted_events) + 1 ≤ max_events
    → e.session.output_chars + e.text_chars ≤ e.session.profile.limits.max_output_chars
    → e.session.profile.limits.max_output_chars
      ≤ e.session.output_chars + e.chunk_chars * (e.event_budget - 1)
    → 1 + e.chunk_chars * k ≤ e.text_chars
    → IsPaced
        (flushed e
          (ok tt, appended now "assistant_text_delta" (text_delta e.round e.pending) e.session)).1
unfolding flushed touch
flushed-IsPaced now e k two count lt room within covers spent = record {
  budget_two = two;
  budget_room = omega (
    arith,
    length-snoc e.session.events
        (event_at now "assistant_text_delta" (text_delta e.round e.pending) e.session.events),
  );
  emitted_le = omega arith;
  within = within;
  chunk_covers = covers;
  silent = λ p. cc;
  paced = λ p. (k, omega arith, omega arith);
}
