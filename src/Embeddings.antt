-- ===== src/Embeddings.antt =====
-- embeddings.py: the limits and profiles of text embedding, and the identity of a vector space.
-- What Python's floats do is a parameter of the modules below.
pub mod Vectors
pub mod Service
mod Tests
use local_agent_runtime.Base.{
  ℕ, String, Text, codes, string_of, decimal, strip, Bool, true, false, not, ◌&&◌, ◌||◌, Option,
  none, some, List, [], ◌∷◌, leb, ltb, if◌then◌else◌, length, is_empty, any, all, same_text,
}
use local_agent_runtime.Failure.{
  Failure, Result, ok, err, crash, invalid_configuration, ◌>>=◌, ◌>>◌, raise_if,
}
use local_agent_runtime.Json.{Json, null, bool, num, str, arr, obj, Fields, end, field}
use local_agent_runtime.Json.Dumps.{compact_ascii, dumps}
use local_agent_runtime.Json.Read.{get, count_of, flag_of, need, equals_text}
use local_agent_runtime.Contracts.{ProviderConnection}
use local_agent_runtime.Contracts.Public.{text_or_null}

pub data EmbeddingPurpose : Type 0 where
  document query : EmbeddingPurpose

pub record EmbeddingLimits : Type 0 where
  pub batch_size : ℕ
  pub max_input_chars : ℕ
  pub max_batch_chars : ℕ
  pub timeout_seconds : ℕ
  pub max_response_bytes : ℕ

abbrev pub invalid_limits : Failure
invalid_limits = invalid_configuration "Embedding limits are invalid"

-- A field of the limits: its default, or an `int` within its bounds.
pub bounded_field : Option Json → (default minimum maximum : ℕ) → Result ℕ
bounded_field none default minimum maximum = ok default
bounded_field (some x) default minimum maximum = elim (count_of x) [
  | none ↦ err invalid_limits
  | some n ↦ if leb minimum n && leb n maximum then ok n else err invalid_limits
]

-- `EmbeddingLimits(**limits)`
unfoldable pub embedding_limits : Fields → Result EmbeddingLimits
unfolding bounded_field
embedding_limits limits = do
  batch_size ← bounded_field (get "batch_size" limits) 24 1 64
  max_input_chars ← bounded_field (get "max_input_chars" limits) 8000 1 16000
  max_batch_chars ← bounded_field (get "max_batch_chars" limits) 192000 1 1024000
  timeout_seconds ← bounded_field (get "timeout_seconds" limits) 120 1 600
  max_response_bytes ← bounded_field (get "max_response_bytes" limits) 8000000 1024 32000000
  ok (record {
    batch_size = batch_size;
    max_input_chars = max_input_chars;
    max_batch_chars = max_batch_chars;
    timeout_seconds = timeout_seconds;
    max_response_bytes = max_response_bytes;
  })

pub record EmbeddingProfile : Type 0 where
  pub id : String
  pub provider_id : String
  pub model : String
  pub dimensions : ℕ
  pub document_prefix : Text
  pub query_prefix : Text
  pub revision : String
  pub normalization : String
  pub distance_metric : String
  pub allow_external_processing : Bool
  pub allow_private_processing : Bool
  pub limits : EmbeddingLimits

-- The value of a field, or its default.
abbrev pub or_default : Option Json → Json → Json
or_default none default = default
or_default (some x) default = x

abbrev is_identity : Text → Bool
is_identity s =
    not (is_empty s) && same_text s (strip s) && leb (length s) 256 && not (any (λ c. ltb c 32) s)

checked_identity : Json → Result String
checked_identity (str s) =
    if is_identity s
    then ok (string_of s)
    else err (invalid_configuration "Embedding profile identity is invalid")
checked_identity _ = err (invalid_configuration "Embedding profile identity is invalid")

abbrev bad_dimensions : Failure
bad_dimensions = invalid_configuration "Embedding dimensions are invalid"

checked_dimensions : Option ℕ → Result ℕ
checked_dimensions none = err bad_dimensions
checked_dimensions (some n) = if leb 1 n && leb n 16384 then ok n else err bad_dimensions

checked_prefix : Json → Result Text
checked_prefix (str s) =
    if ltb 2000 (length s)
    then err (invalid_configuration "Embedding prefixes are invalid")
    else ok s
checked_prefix _ = err (invalid_configuration "Embedding prefixes are invalid")

-- `value not in {…}`, which a list or a mapping does not come through.
checked_choice : List String → String → Json → Result String
checked_choice choices message (str s) =
    if any (λ choice. same_text s (codes choice)) choices
    then ok (string_of s)
    else err (invalid_configuration message)
checked_choice choices message (arr xs) = err (crash "TypeError")
checked_choice choices message (obj fs) = err (crash "TypeError")
checked_choice choices message _ = err (invalid_configuration message)

abbrev bad_flags : Failure
bad_flags = invalid_configuration "Embedding processing flags are invalid"

-- `EmbeddingProfile(id=…, provider_id=…, limits=…, **raw)`
unfoldable pub embedding_profile :
    (id provider_id : Text) → EmbeddingLimits → Fields → Result EmbeddingProfile
unfolding checked_identity checked_dimensions checked_prefix checked_choice
embedding_profile id provider_id limits raw = do
  profile_id ← checked_identity (str id)
  provider ← checked_identity (str provider_id)
  model ← checked_identity (or_default (get "model" raw) null)
  revision ← checked_identity (or_default (get "revision" raw) (str (codes "1")))
  dimensions ← checked_dimensions (count_of (or_default (get "dimensions" raw) null))
  document_prefix ← checked_prefix (or_default (get "document_prefix" raw) (str []))
  query_prefix ← checked_prefix (or_default (get "query_prefix" raw) (str []))
  normalization ←
      checked_choice ("provider" ∷ "l2" ∷ []) "Embedding normalization is unsupported"
        (or_default (get "normalization" raw) (str (codes "provider")))
  distance_metric ←
      checked_choice ("cosine" ∷ "dot" ∷ "euclidean" ∷ [])
        "Embedding distance metric is unsupported"
        (or_default (get "distance_metric" raw) (str (codes "cosine")))
  external ←
      need bad_flags (flag_of (or_default (get "allow_external_processing" raw) (bool false)))
  private ← need bad_flags (flag_of (or_default (get "allow_private_processing" raw) (bool false)))
  ok (record {
    id = profile_id;
    provider_id = provider;
    model = model;
    dimensions = dimensions;
    document_prefix = document_prefix;
    query_prefix = query_prefix;
    revision = revision;
    normalization = normalization;
    distance_metric = distance_metric;
    allow_external_processing = external;
    allow_private_processing = private;
    limits = limits;
  })

-- The identity of a vector space, its keys sorted.
unfoldable pub space_identity : EmbeddingProfile → ProviderConnection → Json
space_identity profile connection = obj (
    field "contract" (str (codes "lar-embedding-space-v1")) (
      field "dimensions" (num (decimal profile.dimensions)) (
        field "distance_metric" (str (codes profile.distance_metric)) (
          field "document_prefix" (str profile.document_prefix) (
            field "driver" (str (codes connection.driver)) (
              field "endpoint" (text_or_null connection.endpoint) (
                field "model" (str (codes profile.model)) (
                  field "normalization" (str (codes profile.normalization)) (
                    field "query_prefix" (str profile.query_prefix) (
                      field "revision" (str (codes profile.revision))
                        (field "upstream" (text_or_null connection.upstream) end)))))))))))

-- `fingerprint`; `sha256` gives the digest in hexadecimal.
unfoldable pub fingerprint :
    (sha256 : Text → String) → EmbeddingProfile → ProviderConnection → String
unfolding space_identity dumps
fingerprint sha256 profile connection =
    sha256 (dumps compact_ascii (space_identity profile connection))
