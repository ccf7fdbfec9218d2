-- ===== src/Adapters/Chat/Tokens.antt =====
-- A request's body with fewer output tokens is no longer.
use local_agent_runtime.Base.{
  ℕ, zero, suc, ◌+◌, ◌/◌, ◌%◌, ◌^◌, ◌≤◌, ◌<◌, String, Text, codes, decimal, decimal_from, ◌≡◌, refl,
  Bool, true, false, List, [], ◌∷◌, ◌++◌, arith, Bool-cases, inl, inr, ltb, leb, if◌then◌else◌,
  length, length-append,
}
use local_agent_runtime.Failure.{ok, ◌>>=◌, >>=-eq-ok, ok-injective}
use local_agent_runtime.Json.{Json, bool, num, str, arr, obj, Fields, field, items}
use local_agent_runtime.Json.Dumps.{spaced, quote, dumps, dumps_fields, is_finite, dumps_finite}
use local_agent_runtime.Contracts.{Invocation, ModelProfile}
use local_agent_runtime.Adapters.Chat.{
  message_items, optional_fields, body_fields, chat_body_chars, bounded_body, chat_body, unbounded,
  chat_prompt_chars,
}
use local_agent_runtime.Adapters.Chat.Size.{bounded_body-chars, chars-of-body}

digits : (fuel : ℕ) → ℕ → ℕ
digits zero n = 0
digits (suc fuel) n = let more = digits fuel (n / 10) in if ltb n 10 then 1 else suc more

length-decimal_from :
    (fuel n : ℕ) (shown : Text) → length (decimal_from fuel n shown) ≡ digits fuel n + length shown
unfolding digits
length-decimal_from zero n shown = omega arith
length-decimal_from (suc fuel) n shown = elim (Bool-cases (ltb n 10)) [
  | inl one ↦ rw one (omega arith)
  | inr more ↦ rw more (omega (arith, length-decimal_from fuel (n / 10) ((48 + n % 10) ∷ shown)))
]

digits-le : (f g a b : ℕ) → a ≤ b → a < f → b < g → digits f a ≤ digits g b
unfolding digits
digits-le zero g a b le hf hg = absurd (omega (arith, hf))
digits-le (suc f) zero a b le hf hg = absurd (omega (arith, hg))
digits-le (suc f) (suc g) a b le hf hg = elim (Bool-cases (ltb a 10)) [
  | inl one ↦ elim (Bool-cases (ltb b 10)) [
    | inl also ↦ rw (one, also) (omega arith)
    | inr more ↦ rw (one, more) (omega arith)
  ]
  | inr more ↦
      let b_more : ltb b 10 ≡ false = ground arith in
      rw (more, b_more)
        (omega
          (arith, digits-le f g (a / 10) (b / 10) (ground arith) (ground arith) (ground arith)))
]

length-decimal-le : (a b : ℕ) → a ≤ b → length (decimal a) ≤ length (decimal b)
length-decimal-le a b le = omega (
  arith,
  length-decimal_from (suc a) a [],
  length-decimal_from (suc b) b [],
  digits-le (suc a) (suc b) a b le (omega arith) (omega arith),
)

append-le : (p s t q : Text) → length s ≤ length t → length (p ++ (s ++ q)) ≤ length (p ++ (t ++ q))
append-le p s t q le = omega (
  arith,
  length-append p (s ++ q),
  length-append p (t ++ q),
  length-append s q,
  length-append t q,
)

after-le : (p s t : Text) → length s ≤ length t → length (p ++ s) ≤ length (p ++ t)
after-le p s t le = omega (arith, length-append p s, length-append p t)

-- Fields with one more in front.
first_field-le :
    (k : String) (x : Json) (i j : String) (y z : Json) (fs gs : Fields)
    → length (dumps_fields spaced (field i y fs)) ≤ length (dumps_fields spaced (field j z gs))
    → length (dumps_fields spaced (field k x (field i y fs)))
      ≤ length (dumps_fields spaced (field k x (field j z gs)))
unfolding dumps
first_field-le k x i j y z fs gs le =
    let before = dumps_fields spaced (field i y fs) in
    let later = dumps_fields spaced (field j z gs) in
    let comma = λ (s : Text). spaced.item_separator ++ s in
    let value = λ (s : Text). dumps spaced x ++ comma s in
    let colon = λ (s : Text). spaced.key_separator ++ value s in
    after-le (quote false (codes k)) (colon before) (colon later) (
      after-le spaced.key_separator (value before) (value later) (
        after-le (dumps spaced x) (comma before) (comma later)
          (after-le spaced.item_separator before later le)))

-- The same field with a number that is no longer.
number_field-le :
    (k j : String) (a b : Text) (y : Json) (fs : Fields)
    → length a ≤ length b
    → length (dumps_fields spaced (field k (num a) (field j y fs)))
      ≤ length (dumps_fields spaced (field k (num b) (field j y fs)))
unfolding dumps
number_field-le k j a b y fs le =
    let rest = spaced.item_separator ++ dumps_fields spaced (field j y fs) in
    after-le (quote false (codes k)) (spaced.key_separator ++ (a ++ rest))
      (spaced.key_separator ++ (b ++ rest)) (append-le spaced.key_separator a b rest le)

-- The body of an invocation that allows `tokens` of output.
abbrev pub allowing : ℕ → Invocation → Invocation
allowing tokens invocation = record invocation {
  limits = record invocation.limits { max_output_tokens = tokens };
}

body_fields-le :
    (profile : ModelProfile) (invocation : Invocation) (stream : Bool) (messages : List Json)
    (tokens : ℕ)
    → tokens ≤ invocation.limits.max_output_tokens
    → length (dumps spaced (obj (body_fields profile (allowing tokens invocation) stream messages)))
      ≤ length (dumps spaced (obj (body_fields profile invocation stream messages)))
unfolding body_fields dumps
body_fields-le profile invocation stream messages tokens le =
    let narrow =
      dumps_fields spaced (body_fields profile (allowing tokens invocation) stream messages) in
    let wide = dumps_fields spaced (body_fields profile invocation stream messages) in
    let rest = field "stream" (bool stream) (optional_fields invocation stream) in
    let limited = λ (n : ℕ). field "max_tokens" (num (decimal n)) rest in
    let listed = arr (items messages) in
    let most = invocation.limits.max_output_tokens in
    let inner : length narrow ≤ length wide =
      first_field-le "model" (str (codes profile.model)) "messages" "messages" listed listed
        (limited tokens) (limited most)
        (first_field-le "messages" listed "max_tokens" "max_tokens" (num (decimal tokens))
          (num (decimal most)) rest rest
          (number_field-le "max_tokens" "stream" (decimal tokens) (decimal most) (bool stream)
            (optional_fields invocation stream) (length-decimal-le tokens most le))) in
    omega (arith, inner, length-append narrow (b'}' ∷ []), length-append wide (b'}' ∷ []))

chat_body_chars-le :
    (profile : ModelProfile) (invocation : Invocation) (stream : Bool) (messages : List Json)
    (tokens n : ℕ)
    → tokens ≤ invocation.limits.max_output_tokens
    → chat_body_chars (body_fields profile invocation stream messages) ≡ ok n
    → (chars : ℕ) × (chat_body_chars
          (body_fields profile (allowing tokens invocation) stream messages)
        ≡ ok chars)
      × (chars ≤ n)
unfolding chat_body_chars dumps_finite body_fields
chat_body_chars-le profile invocation stream messages tokens n le h =
    let narrow = obj (body_fields profile (allowing tokens invocation) stream messages) in
    let wide = obj (body_fields profile invocation stream messages) in
    let smaller = body_fields-le profile invocation stream messages tokens le in
    elim (Bool-cases (is_finite wide)) [
      | inl finite ↦
          let total : length (dumps spaced wide) ≡ n = ok-injective (rw finite at h) in
          (length (dumps spaced narrow), rw finite refl, omega (arith, smaller, total))
      | inr infinite ↦ cc (rw infinite at h)
    ]

-- A body that allows fewer output tokens than the one that was measured is made, too, and is no
-- longer.
pub chat_body-allowing :
    (profile : ModelProfile) (invocation : Invocation) (stream : Bool) (tokens n : ℕ)
    → chat_prompt_chars profile invocation stream ≡ ok n
    → n ≤ invocation.limits.max_input_chars
    → tokens ≤ invocation.limits.max_output_tokens
    → (chars : ℕ) × ((chat_body profile (allowing tokens invocation) stream >>= chat_body_chars)
        ≡ ok chars)
      × (chars ≤ n)
unfolding chat_prompt_chars chat_body
chat_body-allowing profile invocation stream tokens n h fits le =
    let bound = invocation.limits.max_input_chars in
    let (sent, called, measured) =
      >>=-eq-ok (chat_body profile (unbounded invocation) stream) chat_body_chars h in
    let (messages, listed, bounded) =
      >>=-eq-ok (message_items invocation.messages)
        (λ messages. bounded_body (2 ^ 62) (body_fields profile invocation stream messages))
        called in
    let whole =
      chars-of-body (2 ^ 62) n (body_fields profile invocation stream messages)
        (rw bounded measured) in
    let narrow = body_fields profile (allowing tokens invocation) stream messages in
    let (chars, sized, smaller) =
      chat_body_chars-le profile invocation stream messages tokens n le whole in
    let within : leb chars bound ≡ true = ground arith in
    (chars, rw (listed, bounded_body-chars bound chars narrow sized, within) sized, smaller)
