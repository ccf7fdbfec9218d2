-- ===== src/Adapters/Events.antt =====
-- `request_json` and `stream_json_sse` of adapters/http_transport.py, from a response: its status,
-- the chunks of its body and what interrupted it. `utf8`
-- decodes a frame's bytes and `loads` is `json.loads`, both without a value where they raise.
pub mod Chunks
use local_agent_runtime.Base.{
  ℕ, zero, suc, ◌+◌, String, Text, codes, starts_with, drop, Bool, true, false, not, ◌&&◌, ◌||◌,
  Option, none, some, List, [], ◌∷◌, ◌++◌, ltb, leb, ◌==◌, if◌then◌else◌, length, is_empty, all,
  same_text, member,
}
use local_agent_runtime.Failure.{
  Failure, runtime_failure, timed_out, cancelled, crash, Result, ok, err, ◌>>=◌, ◌>>◌,
}
use local_agent_runtime.Adapters.Transport.{response_failure}
use local_agent_runtime.Json.{Json, obj, Fields}
use local_agent_runtime.Json.Read.{fields_of}

-- The first of the boundaries `"\n\n"` and `"\r\n\r\n"`: what stands before it and after it.
unfoldable pub cut : List ℕ → Option (List ℕ × List ℕ)
cut [] = none
cut (c ∷ s) =
    let later = cut s in
    if starts_with (10 ∷ 10 ∷ []) (c ∷ s)
    then some ([], drop 1 s)
    else if starts_with (13 ∷ 10 ∷ 13 ∷ 10 ∷ []) (c ∷ s)
    then some ([], drop 3 s)
    else elim later [ none ↦ none | some (before, after) ↦ some (c ∷ before, after) ]

-- `raw.replace(b"\r\n", b"\n")`
unix_lines : List ℕ → List ℕ
unix_lines [] = []
unix_lines (c ∷ s) =
    let rest = unix_lines s in if starts_with (13 ∷ 10 ∷ []) (c ∷ s) then rest else c ∷ rest

abbrev add_first : ℕ → List Text → List Text
add_first c [] = (c ∷ []) ∷ []
add_first c (line ∷ lines) = (c ∷ line) ∷ lines

-- `frame.split("\n")`
split_lines : Text → List Text
split_lines [] = [] ∷ []
split_lines (c ∷ s) = let rest = split_lines s in if c == 10 then [] ∷ rest else add_first c rest

-- `line[5:].removeprefix(" ")`
line_data : Text → Text
line_data line =
    let held = drop 5 line in if starts_with (codes " ") held then drop 1 held else held

data_lines : List Text → List Text
unfolding line_data
data_lines [] = []
data_lines (line ∷ lines) =
    let rest = data_lines lines in
    if starts_with (codes "data:") line then line_data line ∷ rest else rest

-- `"\n".join(lines)`
join_lines : List Text → Text
join_lines [] = []
join_lines (line ∷ []) = line
join_lines (line ∷ (next ∷ lines)) = line ++ 10 ∷ join_lines (next ∷ lines)

frame_data : Text → Text
unfolding split_lines data_lines join_lines
frame_data frame = join_lines (data_lines (split_lines frame))

-- What a frame is: nothing, the end of the stream, a value, or a `ValueError`.
pub data Frame : Type 0 where
  skipped finished_frame bad_frame : Frame
  value_frame : Fields → Frame

-- How the loop over the frames ends: without a boundary, at the sentinel, or in a raise.
pub data Ended : Type 0 where
  open_end done_end broken_end : Ended

-- What the loop has yielded, and what is still buffered.
pub record Drained : Type 0 where
  pub yielded : List Fields
  pub buffered : List ℕ
  pub ended : Ended

abbrev pub after_frame : Frame → (rest : List ℕ) → Drained → Drained
after_frame skipped rest later = later
after_frame finished_frame rest later = record { yielded = []; buffered = rest; ended = done_end }
after_frame bad_frame rest later = record { yielded = []; buffered = rest; ended = broken_end }
after_frame (value_frame v) rest later = record later { yielded = v ∷ later.yielded }

-- `bytes.strip` leaves nothing.
blank_bytes : List ℕ → Bool
blank_bytes s = all (λ c. leb 9 c && leb c 13 || c == 32) s

abbrev pub response_too_long : Failure
response_too_long =
    runtime_failure "output_limit_exceeded" "Provider response exceeds its limit" 502

abbrev pub invalid_response : Failure
invalid_response =
    runtime_failure "invalid_provider_response" "Provider response is unavailable or invalid" 502

-- The handlers of an exception that interrupts a response.
unfoldable pub transport_failure : Failure → Failure
transport_failure (runtime_failure code message status) = runtime_failure code message status
transport_failure timed_out = runtime_failure "provider_timeout" "Provider request timed out" 504
transport_failure cancelled = cancelled
transport_failure (crash name) =
    if member name ("HTTPError" ∷ "ValueError" ∷ "RecursionError" ∷ [])
    then invalid_response
    else crash name

unfoldable pub ending_failure : Option Failure → Option Failure
unfolding transport_failure
ending_failure none = none
ending_failure (some e) = some (transport_failure e)

-- The bytes of a body within the limit.
collect_bytes : (max_bytes : ℕ) → List ℕ → List (List ℕ) → Result (List ℕ)
collect_bytes max_bytes held [] = ok held
collect_bytes max_bytes held (chunk ∷ chunks) =
    let rest = collect_bytes max_bytes (held ++ chunk) chunks in
    if ltb max_bytes (length held + length chunk) then err response_too_long else rest

-- `result = json.loads(data)`, which must be an object
object_of : Option Json → Result Fields
object_of (some (obj fs)) = ok fs
object_of _ = err invalid_response

-- `if failure is not None: raise failure`, and what interrupted the body
unless_raised : Option Failure → Result (Unit {0})
unless_raised none = ok tt
unless_raised (some e) = err e

-- `request_json` on a response; `load_bytes` is `json.loads` on bytes.
unfoldable pub request_json :
    (load_bytes : List ℕ → Option Json)
    → (status_code max_bytes : ℕ) → (chunks : List (List ℕ)) → (ending : Option Failure)
    → Result Fields
unfolding response_failure collect_bytes object_of unless_raised ending_failure
request_json load_bytes status_code max_bytes chunks ending = do
  unless_raised (response_failure status_code)
  read ← collect_bytes max_bytes [] chunks
  unless_raised (ending_failure ending)
  object_of (load_bytes read)

-- The values that the generator yields, and the failure that ends it, if one does.
abbrev pub Yielded : Type 0
Yielded = List Fields × Option Failure

abbrev pub and_then : List Fields → Yielded → Yielded
and_then first rest = (first ++ rest.0, rest.1)

-- The body's end, or the failure that cut it short.
unfoldable pub close_stream : Option Failure → (buffered : List ℕ) → Yielded
unfolding blank_bytes
close_stream (some e) buffered = ([], some e)
close_stream none buffered =
    if blank_bytes buffered then ([], none) else ([], some invalid_response)

module _ (utf8 : List ℕ → Option Text) (loads : Text → Option Json) where
  read_data : Text → Frame
  read_data held =
      if is_empty held
      then skipped
      else if same_text held (codes "[DONE]")
      then finished_frame
      else elim (loads held) [ some (obj v) ↦ value_frame v | _ ↦ bad_frame ]

  -- One frame.
  unfoldable pub read_frame : List ℕ → Frame
  unfolding unix_lines frame_data read_data
  read_frame raw = elim (utf8 (unix_lines raw)) [
    | none ↦ bad_frame
    | some frame ↦ read_data (frame_data frame)
  ]

  -- The loop over the frames of the buffer; each takes at least two bytes.
  unfoldable pub drain : (fuel : ℕ) → List ℕ → Drained
  unfolding cut
  drain zero buffered = record { yielded = []; buffered = buffered; ended = open_end }
  drain (suc fuel) buffered = elim (cut buffered) [
    | none ↦ record { yielded = []; buffered = buffered; ended = open_end }
    | some (raw, rest) ↦ after_frame (read_frame raw) rest (drain fuel rest)
  ]

  abbrev pub drain_all : List ℕ → Drained
  drain_all buffered = drain (suc (length buffered)) buffered

  -- The loop over the chunks; `ending` is the failure of a body that ends too soon.
  unfoldable pub receive :
      (max_bytes : ℕ)
      → (ending : Option Failure) → (received : ℕ) → (buffered : List ℕ) → (chunks : List (List ℕ))
      → Yielded
  unfolding close_stream
  receive max_bytes ending received buffered [] = close_stream ending buffered
  receive max_bytes ending received buffered (chunk ∷ chunks) =
      if ltb max_bytes (received + length chunk)
      then ([], some response_too_long)
      else (let d = drain_all (buffered ++ chunk) in
          elim d.ended [
            | open_end ↦
                and_then d.yielded
                  (receive max_bytes ending (received + length chunk) d.buffered chunks)
            | done_end ↦ (d.yielded, none)
            | broken_end ↦ (d.yielded, some invalid_response)
          ])

  -- `stream_json_sse` on a response with this status; `ending` is what interrupted its body.
  unfoldable pub stream_json_sse :
      (status_code max_bytes : ℕ) → (chunks : List (List ℕ)) → (ending : Option Failure) → Yielded
  unfolding response_failure receive ending_failure
  stream_json_sse status_code max_bytes chunks ending = elim (response_failure status_code) [
    | some e ↦ ([], some e)
    | none ↦ receive max_bytes (ending_failure ending) 0 [] chunks
  ]
