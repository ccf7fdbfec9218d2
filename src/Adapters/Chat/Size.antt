-- ===== src/Adapters/Chat/Size.antt =====
-- `chat_prompt_chars` against `chat_body`: the size that planning measures is the size that is
-- bounded when the request is made.
use local_agent_runtime.Base.{
  ℕ, ◌^◌, ◌≡◌, refl, Bool, true, false, List, arith, Bool-cases, inl, inr, ltb, leb, if◌then◌else◌,
}
use local_agent_runtime.Failure.{ok, err, ◌>>=◌, ◌>>◌, raise_if, >>=-eq-ok, ok-injective}
use local_agent_runtime.Json.{Json, Fields}
use local_agent_runtime.Contracts.{Invocation, ModelProfile}
use local_agent_runtime.Adapters.Chat.{
  message_items, body_fields, chat_body_chars, input_too_long, bounded_body, chat_body, unbounded,
  chat_prompt_chars,
}

pub bounded_body-chars :
    (bound n : ℕ) (body : Fields)
    → chat_body_chars body ≡ ok n
    → bounded_body bound body ≡ (if leb n bound then ok body else err input_too_long)
unfolding bounded_body
bounded_body-chars bound n body h = elim (Bool-cases (ltb bound n)) [
  | inl over ↦ let over' : leb n bound ≡ false = ground arith in rw (h, over, over') refl
  | inr fits ↦ let fits' : leb n bound ≡ true = ground arith in rw (h, fits, fits') refl
]

pub chars-of-body :
    (bound n : ℕ) (body : Fields)
    → (bounded_body bound body >>= chat_body_chars) ≡ ok n
    → chat_body_chars body ≡ ok n
unfolding bounded_body
chars-of-body bound n body h =
    let (sent, made, h₁) = >>=-eq-ok (bounded_body bound body) chat_body_chars h in
    let (chars, measured, h₂) =
      >>=-eq-ok (chat_body_chars body)
        (λ chars. raise_if (ltb bound chars) input_too_long >> ok body) made in
    elim (Bool-cases (ltb bound chars)) [
      | inl over ↦ cc (rw over at h₂)
      | inr fits ↦ let e : body ≡ sent = ok-injective (rw fits at h₂) in rw e h₁
    ]

-- What `chat_prompt_chars` returns for an invocation decides `chat_body` on the same one: a size
-- within the input limit is the size of the body that is made, and a larger one is refused as an
-- input beyond the limit.
pub chat_body-chat_prompt_chars :
    (profile : ModelProfile) (invocation : Invocation) (stream : Bool) (n : ℕ)
    → chat_prompt_chars profile invocation stream ≡ ok n
    → (chat_body profile invocation stream >>= chat_body_chars)
      ≡ (if leb n invocation.limits.max_input_chars then ok n else err input_too_long)
unfolding chat_prompt_chars chat_body
chat_body-chat_prompt_chars profile invocation stream n h =
    let bound = invocation.limits.max_input_chars in
    let made = λ (messages : List Json). body_fields profile invocation stream messages in
    let (sent, called, measured) =
      >>=-eq-ok (chat_body profile (unbounded invocation) stream) chat_body_chars h in
    let (messages, listed, bounded) =
      >>=-eq-ok (message_items invocation.messages)
        (λ messages. bounded_body (2 ^ 62) (made messages)) called in
    let chars : chat_body_chars (made messages) ≡ ok n =
      chars-of-body (2 ^ 62) n (made messages) (rw bounded measured) in
    elim (Bool-cases (leb n bound)) [
      | inl fits ↦ rw (listed, bounded_body-chars bound n (made messages) chars, fits) chars
      | inr over ↦ rw (listed, bounded_body-chars bound n (made messages) chars, over) refl
    ]
