-- ===== src/Adapters/Cli/Envelope.antt =====
-- What `_parse_envelope` returns.
use mathlib.Core.Path.{subst}
use local_agent_runtime.Base.{
  suc, ◌≤◌, Text, strip, ◌≡◌, refl, ap, false, not, ◌&&◌, ◌||◌, Option, List, [], ◌∷◌, arith, ltb,
  length, is_empty, len, All,
}
use local_agent_runtime.Failure.{ok, >>=-eq-ok, ok-injective, raise_if-passed}
use local_agent_runtime.Json.{Json}
use local_agent_runtime.Json.Read.{need, fields_of, text_of, list_of, get_or_null}
use local_agent_runtime.Contracts.{ToolRequest, ModelProfile, CompletionResult}
use local_agent_runtime.Adapters.Chat.Decode.Checked.{len-string_of}
use local_agent_runtime.Adapters.Cli.{
  bad_request, bad_arguments, bad_envelope, exactly, envelope_call, envelope_calls, envelope_parts,
  provider_unavailable, parse_envelope,
}

-- A request with an identifier of 1 to 128 characters and a name.
abbrev pub IsCall : ToolRequest → Type 0
IsCall request = (1 ≤ len request.id) × (len request.id ≤ 128) × (1 ≤ len request.name)

module _ (loads : Text → Option Json) where
  envelope_call-IsCall :
      (value : Json) (request : ToolRequest)
      → envelope_call loads value ≡ ok request
      → IsCall request
  unfolding envelope_call
  envelope_call-IsCall value request h =
      let (call, mapped, h₁) = >>=-eq-ok (need bad_request (fields_of value)) _ h in
      let (exact, h₂) =
        raise_if-passed (not (exactly ("id" ∷ "name" ∷ "arguments" ∷ []) call)) _ _ h₁ in
      let (id, identified, h₃) =
        >>=-eq-ok (need bad_request (text_of (get_or_null "id" call))) _ h₂ in
      let (id_fits, h₄) = raise_if-passed (is_empty id || ltb 128 (length id)) _ _ h₃ in
      let (name, named, h₅) =
        >>=-eq-ok (need bad_request (text_of (get_or_null "name" call))) _ h₄ in
      let (name_fits, h₆) = raise_if-passed (is_empty name) _ _ h₅ in
      let (shown, given, h₇) =
        >>=-eq-ok (need bad_request (text_of (get_or_null "arguments" call))) _ h₆ in
      let (loaded, parsed, h₈) = >>=-eq-ok (need bad_arguments (loads shown)) _ h₇ in
      let (arguments, read, h₉) = >>=-eq-ok (need bad_arguments (fields_of loaded)) _ h₈ in
      subst IsCall (ok-injective h₉) (
        ground (arith, len-string_of id),
        ground (arith, len-string_of id),
        ground (arith, len-string_of name),
      )

  envelope_calls-fit :
      (calls : List Json) (requests : List ToolRequest)
      → envelope_calls loads calls ≡ ok requests
      → (length requests ≡ length calls) × All IsCall requests
  unfolding envelope_calls
  envelope_calls-fit [] requests h =
      subst (λ rs. (length rs ≡ 0) × All IsCall rs) (ok-injective h) (refl, tt)
  envelope_calls-fit (call ∷ calls) requests h =
      let (one, first, h₁) = >>=-eq-ok (envelope_call loads call) _ h in
      let (more, others, h₂) = >>=-eq-ok (envelope_calls loads calls) _ h₁ in
      let (count, named) = envelope_calls-fit calls more others in
      subst (λ rs. (length rs ≡ suc (length calls)) × All IsCall rs) (ok-injective h₂)
        (ap suc count, (envelope_call-IsCall call one first, named))

  envelope_parts-fit :
      (value : Json) (parts : Text × List Json)
      → envelope_parts value ≡ ok parts
      → length parts.1 ≤ 128
  unfolding envelope_parts
  envelope_parts-fit value parts h =
      let (payload, mapped, h₁) = >>=-eq-ok (need bad_envelope (fields_of value)) _ h in
      let (exact, h₂) =
        raise_if-passed (not (exactly ("content" ∷ "tool_calls" ∷ []) payload)) _ _ h₁ in
      let (content, held, h₃) =
        >>=-eq-ok (need bad_envelope (text_of (get_or_null "content" payload))) _ h₂ in
      let (calls, listed, h₄) =
        >>=-eq-ok (need bad_envelope (list_of (get_or_null "tool_calls" payload))) _ h₃ in
      let (short, h₅) = raise_if-passed (ltb 128 (length calls)) _ _ h₄ in
      subst (λ (p : Text × List Json). length p.1 ≤ 128) (ok-injective h₅) (ground arith)

  -- An envelope that is read has text or a tool request, and at most 128 requests, each with an
  -- identifier of 1 to 128 characters and a name that is not empty.
  pub parse_envelope-IsCall :
      (raw : Text) (profile : ModelProfile) (result : CompletionResult)
      → parse_envelope loads raw profile ≡ ok result
      → ((is_empty result.tool_requests && is_empty result.text) ≡ false)
        × (length result.tool_requests ≤ 128)
        × All IsCall result.tool_requests
  unfolding parse_envelope
  parse_envelope-IsCall raw profile result h =
      let (filled, h₁) = raise_if-passed (is_empty (strip raw)) _ _ h in
      let (short, h₂) =
        raise_if-passed (ltb profile.limits.max_output_chars (length (strip raw))) _ _ h₁ in
      let (payload, loaded, h₃) =
        >>=-eq-ok
          (need (provider_unavailable "The provider returned malformed structured output")
            (loads (strip raw)))
          _ h₂ in
      let (parts, split, h₄) = >>=-eq-ok (envelope_parts payload) _ h₃ in
      let (requests, read, h₅) = >>=-eq-ok (envelope_calls loads parts.1) _ h₄ in
      let (some_answer, h₆) =
        raise_if-passed (is_empty requests && is_empty (strip parts.0)) _ _ h₅ in
      let (count, named) = envelope_calls-fit parts.1 requests read in
      subst
        (λ (r : CompletionResult).
          ((is_empty r.tool_requests && is_empty r.text) ≡ false)
          × (length r.tool_requests ≤ 128)
          × All IsCall r.tool_requests)
        (ok-injective h₆)
        (some_answer, ground (arith, count, envelope_parts-fit payload parts split), named)
