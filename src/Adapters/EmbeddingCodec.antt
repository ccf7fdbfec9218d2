-- ===== src/Adapters/EmbeddingCodec.antt =====
-- `decode_embeddings` of adapters/embedding_codec.py.
use local_agent_runtime.Base.{
  ℕ, Text, Bool, false, not, ◌||◌, Option, none, some, List, [], ◌∷◌, map, ltb, ◌==◌, if◌then◌else◌,
  length, range_from, ℤ,
}
use local_agent_runtime.Failure.{Failure, Result, ok, runtime_failure, crash, ◌>>=◌, ◌>>◌, raise_if}
use local_agent_runtime.Json.{Json, Fields}
use local_agent_runtime.Json.Read.{get_or_null, count_of, fields_of, list_of, need}
use local_agent_runtime.Embeddings.Vectors.{Floats, checked_vectors}
use local_agent_runtime.Embeddings.Service.{EmbeddingResult}
use local_agent_runtime.Adapters.Transport.{safe_usage, response_identity}

abbrev pub invalid_embeddings : Failure
invalid_embeddings =
    runtime_failure "invalid_embedding_response" "Embedding response is invalid" 502

-- The dictionary `ordered`, by index.
module _ {A : Type 0} where
  abbrev pub find_index : ℕ → List (ℕ × A) → Option A
  find_index i [] = none
  find_index i ((j, x) ∷ rest) = if j == i then some x else find_index i rest

  abbrev pub has_index : ℕ → List (ℕ × A) → Bool
  has_index i [] = false
  has_index i ((j, x) ∷ rest) = j == i || has_index i rest

  -- `[ordered[index] for index in …]`
  unfoldable pub pick_indices : List ℕ → List (ℕ × A) → Result (List A)
  pick_indices [] found = ok []
  pick_indices (i ∷ is) found = do
    x ← need (crash "KeyError") (find_index i found)
    rest ← pick_indices is found
    ok (x ∷ rest)

-- One item of the response: its index and its embedding.
unfoldable pub indexed_item : (count : ℕ) → List (ℕ × Json) → Json → Result (ℕ × Json)
indexed_item count found item = do
  fs ← need invalid_embeddings (fields_of item)
  index ← need invalid_embeddings (count_of (get_or_null "index" fs))
  raise_if (has_index index found || not (ltb index count)) invalid_embeddings
  ok (index, get_or_null "embedding" fs)

-- The loop over the items.
unfoldable pub collect_items : (count : ℕ) → List (ℕ × Json) → List Json → Result (List (ℕ × Json))
unfolding indexed_item
collect_items count found [] = ok found
collect_items count found (item ∷ rest) = do
  entry ← indexed_item count found item
  collect_items count (entry ∷ found) rest

-- The vectors in the order of their indices.
unfoldable pub ordered_vectors : (count : ℕ) → List Json → Result (List Json)
unfolding collect_items pick_indices
ordered_vectors count items = do
  raise_if (not (length items == count)) invalid_embeddings
  found ← collect_items count [] items
  pick_indices (range_from 0 count) found

-- `decode_embeddings`; the vectors stay as the numbers that the adapter's caller checks again.
module _ {F : Type 0} (floats : Floats Json F) (number : Text → Option ℤ) where
  unfoldable pub decode_embeddings : Fields → (count dimensions : ℕ) → Result (EmbeddingResult F)
  unfolding ordered_vectors
  decode_embeddings payload count dimensions = do
    items ← need invalid_embeddings (list_of (get_or_null "data" payload))
    found ← ordered_vectors count items
    vectors ← checked_vectors floats count dimensions "provider" (some (map list_of found))
    model ← response_identity (get_or_null "model" payload)
    upstream ← response_identity (get_or_null "provider" payload)
    usage ← safe_usage number (get_or_null "usage" payload)
    ok (record {
      vectors = some (map some vectors);
      effective_model = model;
      effective_upstream = upstream;
      usage = usage;
    })
