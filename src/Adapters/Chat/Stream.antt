-- ===== src/Adapters/Chat/Stream.antt =====
-- `ChatStreamDecoder`. A decoder is local to one call and is dropped when `accept` raises, so
-- only the decoder after a chunk that was accepted is returned.
pub mod Shown
use local_agent_runtime.Base.{
  ℕ, ◌+◌, String, Text, codes, Bool, true, false, not, ◌&&◌, ◌||◌, Option, none, some, List, [],
  ◌∷◌, ◌++◌, map, ltb, leb, ◌==◌, if◌then◌else◌, length, is_empty, is_some, flatten, str_eq,
  same_text, ℤ,
}
use local_agent_runtime.Failure.{Failure, Result, ok, err, runtime_failure, ◌>>=◌, ◌>>◌, raise_if}
use local_agent_runtime.Json.{Json, null, bool, num, str, arr, obj, Fields, end, field, items}
use local_agent_runtime.Json.Read.{
  get, get_or_null, text_of, fields_of, list_of, count_of, equals_zero, equals_text, is_null,
  is_truthy, need,
}
use local_agent_runtime.Contracts.{Invocation, CompletionResult}
use local_agent_runtime.Contracts.Public.{text_or_null}
use local_agent_runtime.Adapters.Transport.{safe_counts, response_identity}
use local_agent_runtime.Adapters.Chat.Decode.{invalid_output, calls_of, decode_chat}

-- a value of `calls`; its type is always `"function"`
pub record PartialCall : Type 0 where
  pub id : Option Text
  pub name : Text
  pub arguments : Text

pub record ChatStreamDecoder : Type 0 where
  pub invocation : Invocation
  pub text_parts : List Text
  pub text_chars : ℕ
  pub calls : List (ℕ × PartialCall)
  pub finish_reason : Option Text
  pub model : Option String
  pub usage : Fields
  pub refused : Bool

abbrev pub new_decoder : Invocation → ChatStreamDecoder
new_decoder invocation = record {
  invocation = invocation;
  text_parts = [];
  text_chars = 0;
  calls = [];
  finish_reason = none;
  model = none;
  usage = end;
  refused = false;
}

abbrev pub output_too_long : Failure
output_too_long =
    runtime_failure "output_limit_exceeded" "The provider output exceeds its limit" 400

-- `d[key] = value`, and `d.update(…)`
put_field : String → Json → Fields → Fields
put_field k x end = field k x end
put_field k x (field j y fs) =
    let rest = put_field k x fs in if str_eq j k then field j x fs else field j y rest

unfoldable pub update_fields : Fields → Fields → Fields
unfolding put_field
update_fields d end = d
update_fields d (field k x fs) = update_fields (put_field k x d) fs

-- The model that the chunks name, the same in each.
unfoldable pub same_model : Option String → Option String → Result (Option String)
same_model known none = ok known
same_model none (some named) = ok (some named)
same_model (some known) (some named) =
    if str_eq known named then ok (some named) else err invalid_output

abbrev pub new_call : PartialCall
new_call = record { id = none; name = []; arguments = [] }

-- `calls.setdefault(index, …)` before the call is read, and the call written back.
abbrev pub find_call : ℕ → List (ℕ × PartialCall) → PartialCall
find_call i [] = new_call
find_call i ((j, call) ∷ rest) = if j == i then call else find_call i rest

put_call : ℕ → PartialCall → List (ℕ × PartialCall) → List (ℕ × PartialCall)
put_call i call [] = (i, call) ∷ []
put_call i call ((j, old) ∷ rest) =
    let later = put_call i call rest in if j == i then (j, call) ∷ rest else (j, old) ∷ later

abbrev differs : Option Text → Text → Bool
differs none id = false
differs (some known) id = not (same_text known id)

-- A call's identifier, the same in each of its fragments.
same_id : Option Text → Json → Result (Option Text)
same_id known null = ok known
same_id known raw = do
  id ← need invalid_output (text_of raw)
  raise_if (differs known id) invalid_output
  ok (some id)

-- `call[key] += fragment`
joined_fragment : Text → Json → Result Text
joined_fragment text null = ok text
joined_fragment text raw = do ok (text ++ (← need invalid_output (text_of raw)))

joined_function : PartialCall → Json → Result PartialCall
unfolding joined_fragment
joined_function call null = ok call
joined_function call raw = do
  function ← need invalid_output (fields_of raw)
  name ← joined_fragment call.name (get_or_null "name" function)
  arguments ← joined_fragment call.arguments (get_or_null "arguments" function)
  ok (record call { name = name; arguments = arguments })

-- one iteration of the loop over the calls of a chunk
unfoldable pub accept_call : List (ℕ × PartialCall) → Json → Result (List (ℕ × PartialCall))
unfolding put_call same_id joined_function
accept_call calls value = do
  raw ← need invalid_output (fields_of value)
  index ← need invalid_output (count_of (get_or_null "index" raw))
  raise_if (not (ltb index 128)) invalid_output
  let call = find_call index calls
  id ← same_id call.id (get_or_null "id" raw)
  raise_if
      (not (is_null (get_or_null "type" raw) || equals_text (get_or_null "type" raw) "function"))
      invalid_output
  whole ← joined_function (record call { id = id }) (get_or_null "function" raw)
  ok (put_call index whole calls)

unfoldable pub accept_calls : List (ℕ × PartialCall) → List Json → Result (List (ℕ × PartialCall))
unfolding accept_call
accept_calls calls [] = ok calls
accept_calls calls (value ∷ values) = do more ← accept_call calls value; accept_calls more values

-- The text that a chunk adds.
unfoldable pub new_text : (shown max_output_chars : ℕ) → Json → Result Text
new_text shown max_output_chars null = ok []
new_text shown max_output_chars content = do
  text ← need invalid_output (text_of content)
  raise_if (ltb max_output_chars (shown + length text)) output_too_long
  ok text

-- `(content,) if content else ()`
abbrev pub shown_text : Text → List Text
shown_text [] = []
shown_text (c ∷ text) = (c ∷ text) ∷ []

unfoldable pub add_text : Text → ChatStreamDecoder → ChatStreamDecoder
add_text text d = record d {
  text_parts = d.text_parts ++ shown_text text;
  text_chars = d.text_chars + length text;
}

-- The finish reason after the chunk.
unfoldable pub finish_after : Option Text → Json → Result (Option Text)
finish_after known null = ok known
finish_after known raw = do ok (some (← need invalid_output (text_of raw)))

-- `choice.get("index", 0)` is 0
abbrev pub index_is_zero : Fields → Bool
index_is_zero choice = elim (get "index" choice) [ none ↦ true | some index ↦ equals_zero index ]

abbrev pub Accepted : Type 0
Accepted = List Text × ChatStreamDecoder

-- What follows the text of a chunk.
unfoldable pub finish_choice : ChatStreamDecoder → Text → (choice delta : Fields) → Result Accepted
unfolding add_text accept_calls calls_of finish_after
finish_choice d text choice delta = do
  raw_calls ← need invalid_output (calls_of (get "tool_calls" delta))
  calls ← accept_calls d.calls raw_calls
  finish ← finish_after d.finish_reason (get_or_null "finish_reason" choice)
  ok (
    shown_text text,
    record (add_text text d) {
      refused = d.refused || is_truthy (get_or_null "refusal" delta);
      calls = calls;
      finish_reason = finish;
    },
  )

unfoldable pub accept_choice : ChatStreamDecoder → Json → Result Accepted
unfolding new_text finish_choice
accept_choice d value = do
  choice ← need invalid_output (fields_of value)
  raise_if (not (index_is_zero choice)) invalid_output
  delta ← need invalid_output (fields_of (get_or_null "delta" choice))
  text ← new_text d.text_chars d.invocation.limits.max_output_chars (get_or_null "content" delta)
  finish_choice d text choice delta

unfoldable pub accept_choices : ChatStreamDecoder → List Json → Result Accepted
unfolding accept_choice
accept_choices d [] = ok ([], d)
accept_choices d (choice ∷ rest) = do
  raise_if (not (is_empty rest) || is_some d.finish_reason) invalid_output
  accept_choice d choice

-- `sorted(self.calls.items())`, whose indices differ
insert_call : ℕ × PartialCall → List (ℕ × PartialCall) → List (ℕ × PartialCall)
insert_call (i, call) [] = (i, call) ∷ []
insert_call (i, call) ((j, other) ∷ rest) =
    let later = insert_call (i, call) rest in
    if leb i j then (i, call) ∷ (j, other) ∷ rest else (j, other) ∷ later

sorted_calls : List (ℕ × PartialCall) → List (ℕ × PartialCall)
unfolding insert_call
sorted_calls [] = []
sorted_calls (entry ∷ rest) = insert_call entry (sorted_calls rest)

unfoldable pub optional_text : Option Text → Json
optional_text none = null
optional_text (some s) = str s

partial_json : ℕ × PartialCall → Json
unfolding optional_text
partial_json (i, call) = obj (
    field "id" (optional_text call.id) (
      field "type" (str (codes "function")) (
        field "function"
          (obj (field "name" (str call.name) (field "arguments" (str call.arguments) end))) end)))

unfoldable pub refusal_field : Bool → Fields
refusal_field false = end
refusal_field true = field "refusal" (bool true) end

-- the payload that `complete` decodes
unfoldable pub complete_payload : ChatStreamDecoder → Fields
unfolding sorted_calls partial_json refusal_field optional_text
complete_payload d =
    field "choices"
      (arr (
        items (
          obj (
            field "finish_reason" (optional_text d.finish_reason) (
              field "message"
                (obj (
                  field "content" (str (flatten d.text_parts)) (
                    field "tool_calls" (arr (items (map partial_json (sorted_calls d.calls))))
                      (refusal_field d.refused))))
                end))
          ∷ [])))
      (field "model" (text_or_null d.model) (field "usage" (obj d.usage) end))

module _ (loads : Text → Option Json) (number : Text → Option ℤ) where
  -- `accept`
  unfoldable pub accept : ChatStreamDecoder → Fields → Result Accepted
  unfolding same_model update_fields accept_choices
  accept d payload = do
    named ← response_identity (get_or_null "model" payload)
    model ← same_model d.model named
    counts ← safe_counts number (get_or_null "usage" payload)
    choices ← need invalid_output (list_of (get_or_null "choices" payload))
    accept_choices (record d { model = model; usage = update_fields d.usage counts }) choices

  -- The chunks of a stream in their order, with the texts that they showed.
  unfoldable pub accept_all : ChatStreamDecoder → List Fields → Result Accepted
  accept_all d [] = ok ([], d)
  accept_all d (payload ∷ payloads) = do
    first ← accept d payload
    rest ← accept_all first.1 payloads
    ok (first.0 ++ rest.0, rest.1)

  -- `complete`
  unfoldable pub complete : ChatStreamDecoder → Result CompletionResult
  unfolding complete_payload
  complete d = decode_chat loads number (complete_payload d) d.invocation false
