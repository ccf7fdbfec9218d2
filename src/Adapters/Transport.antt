-- ===== src/Adapters/Transport.antt =====
-- adapters/http_transport.py: what is taken from a response.
use local_agent_runtime.Base.{
  ℕ, String, Text, string_of, not, ◌&&◌, ◌||◌, Option, none, some, List, [], ◌∷◌, leb, ltb, ◌==◌,
  if◌then◌else◌, length, is_empty, any, member, ℤ, pos, negsuc,
}
use local_agent_runtime.Failure.{Failure, Result, ok, err, runtime_failure, crash, ◌>>=◌}
use local_agent_runtime.Json.{Json, null, num, str, obj, Fields, end, field}
use local_agent_runtime.Json.Read.{need}
use local_agent_runtime.Contracts.{Usage}

-- `_response_failure`
unfoldable pub response_failure : (status_code : ℕ) → Option Failure
response_failure status_code =
    if status_code == 401 || status_code == 403
    then some
        (runtime_failure "provider_authentication_failed" "Provider authentication failed" 503)
    else if status_code == 429
    then some (runtime_failure "provider_rate_limited" "Provider rate limit reached" 429)
    else if not (leb 200 status_code && ltb status_code 300)
    then some (runtime_failure "provider_unavailable" "The provider request failed" 503)
    else none

abbrev pub usage_names : List String
usage_names =
    "prompt_tokens" ∷ "completion_tokens" ∷ "total_tokens" ∷ "input_tokens" ∷ "output_tokens"
    ∷ "cost" ∷ []

-- A count that is not negative joins the others, as it was written.
with_count : String → Text → ℤ → Fields → Fields
with_count name shown (pos n) rest = field name (num shown) rest
with_count name shown (negsuc n) rest = rest

-- `number` is the value of a number's text in units of 10⁻⁹; it has none for an `int` that
-- overflows `math.isfinite`.
module _ (number : Text → Option ℤ) where
  -- Whether an entry is kept, and what follows it.
  kept_count : String → Text → Result Fields → Result Fields
  unfolding with_count
  kept_count name shown rest = do
    count ← need (crash "OverflowError") (number shown)
    others ← rest
    ok (with_count name shown count others)

  unfoldable pub kept_counts : Fields → Result Fields
  unfolding kept_count
  kept_counts end = ok end
  kept_counts (field name (num n) fs) =
      let rest = kept_counts fs in if member name usage_names then kept_count name n rest else rest
  kept_counts (field name _ fs) = kept_counts fs

  -- `safe_usage`, with the numbers as they were written
  unfoldable pub safe_counts : Json → Result Fields
  unfolding kept_counts
  safe_counts (obj fs) = kept_counts fs
  safe_counts _ = ok end

  -- The values of counts.
  unfoldable pub usage_of : Fields → Usage
  usage_of end = []
  usage_of (field name (num n) fs) =
      let rest = usage_of fs in elim (number n) [ none ↦ rest | some count ↦ (name, count) ∷ rest ]
  usage_of (field name _ fs) = usage_of fs

  -- `safe_usage`
  unfoldable pub safe_usage : Json → Result Usage
  unfolding safe_counts usage_of
  safe_usage value = do ok (usage_of (← safe_counts value))

abbrev pub invalid_identity : Failure
invalid_identity = runtime_failure "invalid_provider_response" "Provider identity is invalid" 502

-- `response_identity`
unfoldable pub response_identity : Json → Result (Option String)
response_identity null = ok none
response_identity (str s) =
    if is_empty s || ltb 256 (length s) || any (λ c. ltb c 32) s
    then err invalid_identity
    else ok (some (string_of s))
response_identity _ = err invalid_identity
