-- ===== src/Adapters/Events/Chunks.antt =====
-- How a response's body is cut into chunks does not matter.
use mathlib.Core.Path.{subst}
use local_agent_runtime.Base.{
  ℕ, zero, suc, ◌+◌, ◌≤◌, ◌<◌, Text, ◌≡◌, refl, ap, sym, ◌∙◌, false, Option, none, some, List, [],
  ◌∷◌, ◌++◌, append_assoc, append-nil, arith, Bool-cases, Option-cases, inl, inr, ltb, length,
  length-append, length-drop, starts_with, some_eq, flatten,
}
use local_agent_runtime.Failure.{Failure}
use local_agent_runtime.Json.{Json, Fields}
use local_agent_runtime.Adapters.Transport.{response_failure}
use local_agent_runtime.Adapters.Events.{
  cut, Frame, skipped, finished_frame, bad_frame, value_frame, Drained, Ended, open_end, done_end,
  broken_end, after_frame, invalid_response, Yielded, and_then, close_stream, read_frame, drain,
  drain_all, receive, stream_json_sse, ending_failure,
}

cut-shorter : (s raw rest : List ℕ) → cut s ≡ some (raw, rest) → length rest < length s
unfolding cut
cut-shorter [] raw rest h = cc
cut-shorter (c ∷ s) raw rest h = elim (Bool-cases (starts_with (10 ∷ 10 ∷ []) (c ∷ s))) [
  | inl lf ↦
      let e = some_eq (rw (lf, cut) at h) in
      ground (arith, length-drop 1 s, ap (λ (p : List ℕ × List ℕ). length p.1) e)
  | inr no_lf ↦ elim (Bool-cases (starts_with (13 ∷ 10 ∷ 13 ∷ 10 ∷ []) (c ∷ s))) [
    | inl crlf ↦
        let e = some_eq (rw (no_lf, crlf, cut) at h) in
        ground (arith, length-drop 3 s, ap (λ (p : List ℕ × List ℕ). length p.1) e)
    | inr no_crlf ↦ elim (Option-cases (cut s)) [
      | inl absent ↦ cc (rw (no_lf, no_crlf, absent, cut) at h)
      | inr ((before, after), found) ↦
          let e = some_eq (rw (no_lf, no_crlf, found, cut) at h) in
          omega
            (arith, cut-shorter s before after found, ap (λ (p : List ℕ × List ℕ). length p.1) e)
    ]
  ]
]

cut-append :
    (s t raw rest : List ℕ) → cut s ≡ some (raw, rest) → cut (s ++ t) ≡ some (raw, rest ++ t)
unfolding cut
cut-append [] t raw rest h = cc
cut-append (c ∷ []) t raw rest h = ground arith
cut-append (c ∷ x ∷ []) t raw rest h = ground arith
cut-append (c ∷ x ∷ y ∷ []) t raw rest h = ground arith
cut-append (c ∷ x ∷ y ∷ z ∷ s) t raw rest h =
    elim (Bool-cases (starts_with (10 ∷ 10 ∷ []) (c ∷ x ∷ []))) [
      | inl lf ↦
          let e = some_eq (rw (lf, cut) at h) in
          rw lf (ap (λ (p : List ℕ × List ℕ). some (p.0, p.1 ++ t)) e)
      | inr no_lf ↦ elim (Bool-cases (starts_with (13 ∷ 10 ∷ 13 ∷ 10 ∷ []) (c ∷ x ∷ y ∷ z ∷ []))) [
        | inl crlf ↦
            let e = some_eq (rw (no_lf, crlf, cut) at h) in
            rw (no_lf, crlf) (ap (λ (p : List ℕ × List ℕ). some (p.0, p.1 ++ t)) e)
        | inr no_crlf ↦ elim (Option-cases (cut (x ∷ y ∷ z ∷ s))) [
          | inl absent ↦ cc (rw (no_lf, no_crlf, absent, cut) at h)
          | inr ((before, after), found) ↦
              let e = some_eq (rw (no_lf, no_crlf, found, cut) at h) in
              rw (no_lf, no_crlf, cut-append (x ∷ y ∷ z ∷ s) t before after found)
                (ap (λ (p : List ℕ × List ℕ). some (p.0, p.1 ++ t)) e)
        ]
      ]
    ]

module _ (utf8 : List ℕ → Option Text) (loads : Text → Option Json) where
  abbrev whole : List ℕ → Drained
  whole buffered = drain_all utf8 loads buffered

  abbrev waiting_for_more : List ℕ → Drained
  waiting_for_more b = record { yielded = []; buffered = b; ended = open_end }

  drain-none : (f : ℕ) (b : List ℕ) → cut b ≡ none → drain utf8 loads (suc f) b ≡ waiting_for_more b
  unfolding drain
  drain-none f b absent = rw (absent, drain) refl

  drain-cut :
      (f : ℕ) (b raw rest : List ℕ)
      → cut b ≡ some (raw, rest)
      → drain utf8 loads (suc f) b
        ≡ after_frame (read_frame utf8 loads raw) rest (drain utf8 loads f rest)
  unfolding drain
  drain-cut f b raw rest found = rw (found, drain) refl

  -- Any fuel above the length of the buffer is enough.
  drain-fuel :
      (f g : ℕ) (b : List ℕ)
      → length b < f
      → length b < g
      → drain utf8 loads f b ≡ drain utf8 loads g b
  drain-fuel zero g b hf hg = absurd (omega (arith, hf))
  drain-fuel (suc f) zero b hf hg = absurd (omega (arith, hg))
  drain-fuel (suc f) (suc g) b hf hg = elim (Option-cases (cut b)) [
    | inl absent ↦ drain-none f b absent ∙ sym (drain-none g b absent)
    | inr ((raw, rest), found) ↦
        let shorter = cut-shorter b raw rest found in
        drain-cut f b raw rest found
        ∙ ap (after_frame (read_frame utf8 loads raw) rest)
            (drain-fuel f g rest (omega (arith, shorter, hf)) (omega (arith, shorter, hg)))
        ∙ sym (drain-cut g b raw rest found)
  ]

  -- What the loop goes on to do when more bytes arrive.
  abbrev continued : Drained → List ℕ → Drained
  continued d t = elim d.ended [
    | open_end ↦
        let later = whole (d.buffered ++ t) in record later { yielded = d.yielded ++ later.yielded }
    | _ ↦ record d { buffered = d.buffered ++ t }
  ]

  continued-after_frame :
      (frame : Frame) (rest t : List ℕ) (d : Drained)
      → continued (after_frame frame rest d) t ≡ after_frame frame (rest ++ t) (continued d t)
  continued-after_frame skipped rest t d = refl
  continued-after_frame finished_frame rest t d = refl
  continued-after_frame bad_frame rest t d = refl
  continued-after_frame (value_frame v) rest t d = by_end d.ended d refl
    where
      by_end :
          (e : Ended) (d : Drained)
          → d.ended ≡ e
          → continued (after_frame (value_frame v) rest d) t
            ≡ after_frame (value_frame v) (rest ++ t) (continued d t)
      by_end open_end d h = rw h refl
      by_end done_end d h = rw h refl
      by_end broken_end d h = rw h refl

  drain-append :
      (f : ℕ) (b t : List ℕ) → length b < f → whole (b ++ t) ≡ continued (drain utf8 loads f b) t
  drain-append zero b t h = absurd (omega (arith, h))
  drain-append (suc f) b t h = elim (Option-cases (cut b)) [
    | inl absent ↦ sym (ap (λ d. continued d t) (drain-none f b absent))
    | inr ((raw, rest), found) ↦
        let shorter = cut-shorter b raw rest found in
        let longer = length-append b t in
        let longer' = length-append rest t in
        drain-cut (length (b ++ t)) (b ++ t) raw (rest ++ t) (cut-append b t raw rest found)
        ∙ ap (after_frame (read_frame utf8 loads raw) (rest ++ t)) (
            drain-fuel (length (b ++ t)) (suc (length (rest ++ t))) (rest ++ t)
              (omega (arith, shorter, longer, longer')) (omega arith)
            ∙ drain-append f rest t (omega (arith, shorter, h)))
        ∙ sym (continued-after_frame (read_frame utf8 loads raw) rest t (drain utf8 loads f rest))
        ∙ sym (ap (λ d. continued d t) (drain-cut f b raw rest found))
  ]

  after_frame-rest :
      (frame : Frame) (rest : List ℕ) (d : Drained)
      → (d.ended ≡ open_end → cut d.buffered ≡ none)
      → (after_frame frame rest d).ended ≡ open_end
      → cut (after_frame frame rest d).buffered ≡ none
  after_frame-rest skipped rest d h = h
  after_frame-rest finished_frame rest d h = λ e. cc
  after_frame-rest bad_frame rest d h = λ e. cc
  after_frame-rest (value_frame v) rest d h = h

  drain-rest :
      (f : ℕ) (b : List ℕ)
      → length b < f
      → (drain utf8 loads f b).ended ≡ open_end
      → cut (drain utf8 loads f b).buffered ≡ none
  drain-rest zero b h = absurd (omega (arith, h))
  drain-rest (suc f) b h = elim (Option-cases (cut b)) [
    | inl absent ↦
        subst (λ (d : Drained). d.ended ≡ open_end → cut d.buffered ≡ none)
          (sym (drain-none f b absent)) (λ e. absent)
    | inr ((raw, rest), found) ↦
        subst (λ (d : Drained). d.ended ≡ open_end → cut d.buffered ≡ none)
          (sym (drain-cut f b raw rest found))
          (after_frame-rest (read_frame utf8 loads raw) rest (drain utf8 loads f rest)
            (drain-rest f rest (omega (arith, cut-shorter b raw rest found, h))))
  ]

  -- What the stream yields from a buffer after which nothing comes.
  abbrev ended_with : Option Failure → Drained → Yielded
  ended_with ending d = elim d.ended [
    | open_end ↦ and_then d.yielded (close_stream ending d.buffered)
    | done_end ↦ (d.yielded, none)
    | broken_end ↦ (d.yielded, some invalid_response)
  ]

  ended_with-prefix :
      (ending : Option Failure) (first : List Fields) (d : Drained) (e : Ended)
      → d.ended ≡ e
      → ended_with ending (record d { yielded = first ++ d.yielded })
        ≡ and_then first (ended_with ending d)
  ended_with-prefix ending first d open_end h = rw h (
      ap (λ (ys : List Fields). (ys, (close_stream ending d.buffered).1))
        (append_assoc first d.yielded (close_stream ending d.buffered).0))
  ended_with-prefix ending first d done_end h = rw h refl
  ended_with-prefix ending first d broken_end h = rw h refl

  -- the step of `receive` after its check of the limit
  abbrev received_chunk : Drained → (List ℕ → Yielded) → Yielded
  received_chunk d rest = elim d.ended [
    | open_end ↦ and_then d.yielded (rest d.buffered)
    | done_end ↦ (d.yielded, none)
    | broken_end ↦ (d.yielded, some invalid_response)
  ]

  received_chunk-continued :
      (ending : Option Failure) (d : Drained) (rest : List ℕ → Yielded) (t : List ℕ) (e : Ended)
      → d.ended ≡ e
      → (d.ended ≡ open_end → rest d.buffered ≡ ended_with ending (whole (d.buffered ++ t)))
      → received_chunk d rest ≡ ended_with ending (continued d t)
  received_chunk-continued ending d rest t open_end h later = rw h (
      ap (and_then d.yielded) (later h)
      ∙ sym (
          ended_with-prefix ending d.yielded (whole (d.buffered ++ t))
            (whole (d.buffered ++ t)).ended refl))
  received_chunk-continued ending d rest t done_end h later = rw h refl
  received_chunk-continued ending d rest t broken_end h later = rw h refl

  receive-whole :
      (max_bytes : ℕ) (ending : Option Failure) (received : ℕ) (b : List ℕ) (chunks : List (List ℕ))
      → cut b ≡ none
      → received + length (flatten chunks) ≤ max_bytes
      → receive utf8 loads max_bytes ending received b chunks
        ≡ ended_with ending (whole (b ++ flatten chunks))
  unfolding receive
  receive-whole max_bytes ending received b [] clear fits =
      sym
        (ap (ended_with ending) (ap (λ s. whole s) (append-nil b) ∙ drain-none (length b) b clear))
  receive-whole max_bytes ending received b (chunk ∷ chunks) clear fits =
      let size = length-append chunk (flatten chunks) in
      let within : ltb max_bytes (received + length chunk) ≡ false = ground (arith, size, fits) in
      let d = whole (b ++ chunk) in
      rw within (
        received_chunk-continued ending d
          (λ buffered.
            receive utf8 loads max_bytes ending (received + length chunk) buffered chunks)
          (flatten chunks) d.ended refl
          (λ is_open.
            receive-whole max_bytes ending (received + length chunk) d.buffered chunks
              (drain-rest (suc (length (b ++ chunk))) (b ++ chunk) (omega arith) is_open)
              (omega (arith, size, fits)))
        ∙ ap (ended_with ending) (
            sym
              (drain-append (suc (length (b ++ chunk))) (b ++ chunk) (flatten chunks) (omega arith))
            ∙ ap (λ s. whole s) (append_assoc b chunk (flatten chunks))))

  -- However the bytes of a response are cut into chunks, a stream yields the same values and ends
  -- the same way as if they came in one, where they are within the limit together.
  pub stream_json_sse-chunks :
      (status_code max_bytes : ℕ) (chunks : List (List ℕ)) (ending : Option Failure)
      → length (flatten chunks) ≤ max_bytes
      → stream_json_sse utf8 loads status_code max_bytes chunks ending
        ≡ stream_json_sse utf8 loads status_code max_bytes (flatten chunks ∷ []) ending
  unfolding stream_json_sse cut
  stream_json_sse-chunks status_code max_bytes chunks ending fits =
      let same = append-nil (flatten chunks) in
      let stop = ending_failure ending in
      ap (λ (y : Yielded). elim (response_failure status_code) [ some e ↦ ([], some e) | none ↦ y ])
        (receive-whole max_bytes stop 0 [] chunks refl (omega (arith, fits))
          ∙ sym (
              receive-whole max_bytes stop 0 [] (flatten chunks ∷ []) refl
                (omega (arith, fits, ap length same))
              ∙ ap (λ s. ended_with stop (whole s)) same))
