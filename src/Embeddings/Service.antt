-- ===== src/Embeddings/Service.antt =====
-- `EmbeddingService` of embeddings.py. A call waits for its provider between `begin_embed` and
-- `finish_embed`, and other calls run meanwhile, so the two are steps of their own.
pub mod Limits
pub mod Steps
use local_agent_runtime.Base.{
  ℕ, ◌+◌, ◌-◌, String, Text, Bool, true, false, not, ◌&&◌, ◌||◌, Option, none, some, List, [], ◌∷◌,
  ◌++◌, map, leb, ltb, if◌then◌else◌, length, any, is_some, is_blank, sum_of, str_eq, lookup,
}
use local_agent_runtime.Failure.{
  Failure, Result, ok, err, runtime_failure, timed_out, cancelled, crash, invalid_configuration,
  invalid_request, ◌>>=◌, ◌>>◌, raise_if,
}
use local_agent_runtime.Json.Read.{need}
use local_agent_runtime.Contracts.{ProcessingClass, local, external, ProviderConnection, Usage}
use local_agent_runtime.Effect.{Action}
use local_agent_runtime.Embeddings.{
  EmbeddingPurpose, document, query, EmbeddingLimits, EmbeddingProfile, fingerprint,
}
use local_agent_runtime.Embeddings.Vectors.{Floats, checked_vectors}

pub record EmbeddingService : Type 0 where
  pub providers : List (String × ProviderConnection)
  pub profiles : List (String × EmbeddingProfile)
  pub max_concurrency : ℕ
  pub active : ℕ

-- `__init__`; a bound that is no `int` from 0 on is `none`.
unfoldable pub new_service :
    List (String × ProviderConnection)
    → List (String × EmbeddingProfile)
    → Option ℕ
    → Result EmbeddingService
new_service providers profiles none = err (invalid_configuration "Embedding concurrency is invalid")
new_service providers profiles (some bound) =
    if leb 1 bound && leb bound 32
    then ok
        (record { providers = providers; profiles = profiles; max_concurrency = bound; active = 0 })
    else err (invalid_configuration "Embedding concurrency is invalid")

-- The arguments of `embed`; a value of another class than the one that is wanted is `none`.
pub record EmbedRequest : Type 0 where
  pub profile_id : Option String
  pub inputs : Option (List (Option Text))
  pub purpose : Option EmbeddingPurpose
  pub expected_fingerprint : Option String
  pub allow_external_processing : Option Bool
  pub private_processing : Option Bool

-- A call that waits for its provider.
pub record EmbeddingCall : Type 0 where
  pub profile : EmbeddingProfile
  pub connection : ProviderConnection
  pub fingerprint : String
  pub purpose : EmbeddingPurpose
  pub prepared : List Text

abbrev is_external : ProcessingClass → Bool
is_external external = true
is_external local = false

abbrev pub prefix_for : EmbeddingProfile → EmbeddingPurpose → Text
prefix_for profile document = profile.document_prefix
prefix_for profile query = profile.query_prefix

abbrev pub bad_text : Failure
bad_text = invalid_request "Embedding text is empty or exceeds its limit"

-- One input with its prefix.
unfoldable pub prepare : (prefix : Text) → (max_input_chars : ℕ) → Option Text → Result Text
prepare prefix max_input_chars none = err bad_text
prepare prefix max_input_chars (some s) =
    if is_blank s || ltb max_input_chars (length prefix + length s)
    then err bad_text
    else ok (prefix ++ s)

unfoldable pub prepare_all :
    (prefix : Text) → (max_input_chars : ℕ) → List (Option Text) → Result (List Text)
unfolding prepare
prepare_all prefix max_input_chars [] = ok []
prepare_all prefix max_input_chars (s ∷ inputs) = do
  text ← prepare prefix max_input_chars s
  rest ← prepare_all prefix max_input_chars inputs
  ok (text ∷ rest)

-- The batch that is sent: its size, each of its texts, then their sum.
unfoldable pub prepared_batch :
    (prefix : Text) → EmbeddingLimits → List (Option Text) → Result (List Text)
prepared_batch prefix limits inputs = do
  raise_if (not (leb 1 (length inputs) && leb (length inputs) limits.batch_size))
      (invalid_request "Embedding batch size exceeds its bounds")
  prepared ← prepare_all prefix limits.max_input_chars inputs
  raise_if (ltb limits.max_batch_chars (sum_of length prepared))
      (invalid_request "Embedding batch exceeds its total input limit")
  ok prepared

-- `expected is not None and expected != found`
abbrev differs : Option String → String → Bool
differs none found = false
differs (some expected) found = not (str_eq expected found)

-- `embed` before it counts as active.
unfoldable pub checked_call :
    (sha256 : Text → String) → EmbeddingService → EmbedRequest → Result EmbeddingCall
checked_call sha256 sv args = do
  profile_id ← need (invalid_request "The embedding profile is unknown") args.profile_id
  profile ←
      need (invalid_request "The embedding profile is unknown") (lookup profile_id sv.profiles)
  connection ← need (crash "KeyError") (lookup profile.provider_id sv.providers)
  allow_external ←
      need (invalid_request "Embedding processing flags are invalid") args.allow_external_processing
  private ← need (invalid_request "Embedding processing flags are invalid") args.private_processing
  raise_if
      ((is_external connection.processing
          && not (profile.allow_external_processing && allow_external))
        || (private && not profile.allow_private_processing))
      (runtime_failure "processing_not_allowed" "Embedding processing is not allowed" 403)
  raise_if (differs args.expected_fingerprint (fingerprint sha256 profile connection)) (
      runtime_failure "embedding_profile_mismatch" "The embedding space does not match the index"
        409)
  purpose ← need (invalid_request "Embedding purpose must be document or query") args.purpose
  inputs ← need (invalid_request "Embedding inputs must be a batch of text") args.inputs
  prepared ← prepared_batch (prefix_for profile purpose) profile.limits inputs
  ok (record {
    profile = profile;
    connection = connection;
    fingerprint = fingerprint sha256 profile connection;
    purpose = purpose;
    prepared = prepared;
  })

abbrev pub embedding_busy : Failure
embedding_busy = runtime_failure "capacity_exceeded" "Embedding concurrency limit reached" 429

-- The call takes one of the places.
pub take_place : Result EmbeddingCall → Action EmbeddingService EmbeddingCall
take_place (err e) sv = (err e, sv)
take_place (ok call) sv =
    if leb sv.max_concurrency sv.active
    then (err embedding_busy, sv)
    else (ok call, record sv { active = sv.active + 1 })

-- `embed` up to the provider.
unfoldable pub begin_embed :
    (sha256 : Text → String) → EmbedRequest → Action EmbeddingService EmbeddingCall
unfolding take_place
begin_embed sha256 args sv = take_place (checked_call sha256 sv args) sv

-- `EmbeddingResult`, over the values of a vector.
pub record EmbeddingResult (V : Type 0) : Type 0 where
  pub vectors : Option (List (Option (List V)))
  pub effective_model : Option String
  pub effective_upstream : Option String
  pub usage : Usage

-- What `embed` returns, without its two dates.
pub record EmbeddingAnswer (F : Type 0) : Type 0 where
  pub call : EmbeddingCall
  pub effective_model : Option String
  pub effective_upstream : Option String
  pub vectors : List (List F)
  pub usage : Usage

-- The handlers around the provider's call.
unfoldable pub safe_failure : Failure → Failure
safe_failure (runtime_failure code message status) = runtime_failure code message status
safe_failure timed_out = runtime_failure "provider_timeout" "Embedding request timed out" 504
safe_failure cancelled = cancelled
safe_failure (crash name) = runtime_failure "provider_failure" "Embedding request failed safely" 502

module _ {V F : Type 0} (floats : Floats V F) where
  unfoldable pub checked_answer : EmbeddingCall → EmbeddingResult V → Result (EmbeddingAnswer F)
  checked_answer call result = do
    vectors ←
        checked_vectors floats (length call.prepared) call.profile.dimensions
          call.profile.normalization result.vectors
    raise_if (differs result.effective_model call.profile.model)
        (runtime_failure "embedding_model_mismatch" "The embedding model changed" 502)
    ok (record {
      call = call;
      effective_model = result.effective_model;
      effective_upstream = result.effective_upstream;
      vectors = vectors;
      usage = result.usage;
    })

  pub answered : EmbeddingCall → Result (EmbeddingResult V) → Result (EmbeddingAnswer F)
  unfolding checked_answer
  answered call (err e) = err e
  answered call (ok result) = checked_answer call result

  pub guarded : Result (EmbeddingAnswer F) → Result (EmbeddingAnswer F)
  unfolding safe_failure
  guarded (ok answer) = ok answer
  guarded (err e) = err (safe_failure e)

  -- `embed` from the provider's answer on, which comes within the time limit or not; the place is
  -- given back either way.
  unfoldable pub finish_embed :
      EmbeddingCall → Result (EmbeddingResult V) → Action EmbeddingService (EmbeddingAnswer F)
  unfolding answered guarded
  finish_embed call outcome sv =
      (guarded (answered call outcome), record sv { active = sv.active - 1 })
