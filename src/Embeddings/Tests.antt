-- ===== src/Embeddings/Tests.antt =====
-- A profile, a batch and a call.
use local_agent_runtime.Base.{
  ℕ, ◌≤◌, String, Text, codes, is_blank, ◌≡◌, refl, true, false, none, some, List, [], ◌∷◌, length,
  All, sum_of,
}
use local_agent_runtime.Failure.{ok}
use local_agent_runtime.Contracts.{ProviderConnection, local}
use local_agent_runtime.Embeddings.{EmbeddingProfile, EmbeddingLimits, document}
use local_agent_runtime.Embeddings.Vectors.{
  Floats, checked_vector, checked_vectors, checked_vectors-shape,
}
use local_agent_runtime.Embeddings.Service.{
  EmbeddingService, EmbedRequest, prepare_all, prepared_batch, begin_embed,
}
use local_agent_runtime.Embeddings.Service.Limits.{IsPrepared, prepared_batch-IsPrepared}
use local_agent_runtime.Embeddings.Service.Steps.{
  Running, settled_one, began, then_step, arrive, IsCounted, Reachable-IsCounted,
}

abbrev limits : EmbeddingLimits
limits = record {
  batch_size = 2;
  max_input_chars = 10;
  max_batch_chars = 15;
  timeout_seconds = 60;
  max_response_bytes = 4096;
}

abbrev prepared : List Text
prepared = codes "d: one" ∷ codes "d: two" ∷ []

batch-prepared :
    prepared_batch (codes "d: ") limits (some (codes "one") ∷ some (codes "two") ∷ []) ≡ ok prepared
unfolding prepared_batch prepare_all is_blank
batch-prepared = refl

prepared_batch-IsPrepared_example :
    IsPrepared (codes "d: ") 10 (some (codes "one") ∷ some (codes "two") ∷ []) prepared
    × (1 ≤ length prepared)
    × (length prepared ≤ 2)
    × (sum_of length prepared ≤ 15)
prepared_batch-IsPrepared_example =
    prepared_batch-IsPrepared (codes "d: ") limits (some (codes "one") ∷ some (codes "two") ∷ [])
      prepared batch-prepared

-- Floats that are whole numbers, with the sum of the values for their norm.
abbrev whole : Floats ℕ ℕ
whole = record {
  read = λ n. some n;
  hypot = λ ns. sum_of (λ n. n) ns;
  is_zero = λ n. false;
  is_finite = λ n. true;
  divide = λ a b. a;
}

abbrev vectors : List (List ℕ)
vectors = (1 ∷ 2 ∷ []) ∷ (3 ∷ 4 ∷ []) ∷ []

vectors-checked :
    checked_vectors whole 2 2 "provider" (some (some (1 ∷ 2 ∷ []) ∷ some (3 ∷ 4 ∷ []) ∷ []))
    ≡ ok vectors
unfolding checked_vectors checked_vector
vectors-checked = refl

checked_vectors-shape_example : (length vectors ≡ 2) × All (λ xs. length xs ≡ 2) vectors
checked_vectors-shape_example =
    checked_vectors-shape whole 2 2 "provider" (some (some (1 ∷ 2 ∷ []) ∷ some (3 ∷ 4 ∷ []) ∷ []))
      vectors vectors-checked

abbrev profile : EmbeddingProfile
profile = record {
  id = "notes";
  provider_id = "studio";
  model = "small";
  dimensions = 2;
  document_prefix = codes "d: ";
  query_prefix = [];
  revision = "1";
  normalization = "provider";
  distance_metric = "cosine";
  allow_external_processing = false;
  allow_private_processing = false;
  limits = limits;
}

abbrev studio : ProviderConnection
studio = record {
  id = "studio";
  driver = "lmstudio";
  processing = local;
  command = none;
  endpoint = some "http://127.0.0.1:1234/v1";
  credential_ref = none;
  upstream = none;
}

abbrev service : EmbeddingService
service = record {
  providers = ("studio", studio) ∷ [];
  profiles = ("notes", profile) ∷ [];
  max_concurrency = 1;
  active = 0;
}

abbrev request : EmbedRequest
request = record {
  profile_id = some "notes";
  inputs = some (some (codes "one") ∷ []);
  purpose = some document;
  expected_fingerprint = none;
  allow_external_processing = some false;
  private_processing = some false;
}

abbrev digest : Text → String
digest s = "digest"

abbrev busy : Running
busy = settled_one (begin_embed digest request service) []

Reachable-IsCounted_example : IsCounted 1 busy
Reachable-IsCounted_example =
    Reachable-IsCounted digest whole service refl busy (then_step began (arrive request))
