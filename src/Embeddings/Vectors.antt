-- ===== src/Embeddings/Vectors.antt =====
-- `checked_vectors` of embeddings.py, over Python's floats and the values that an adapter returns.
use mathlib.Core.Path.{subst}
use local_agent_runtime.Base.{
  ℕ, suc, String, ◌≡◌, refl, ap, sym, ◌∙◌, Bool, not, ◌||◌, Option, none, some, List, [], ◌∷◌, map,
  arith, Bool-cases, inl, inr, ==_iff, ◌==◌, if◌then◌else◌, length, length-map, str_eq, All,
}
use local_agent_runtime.Json.Read.{need}
use local_agent_runtime.Failure.{
  Failure, Result, ok, err, runtime_failure, ◌>>=◌, >>=-eq-ok, ok-injective,
}

-- The float operations that the check uses. `read` is `float(value)` of an `int` or of a finite
-- `float`, and nothing for any other value or for one that overflows.
pub record Floats (V F : Type 0) : Type 0 where
  pub read : V → Option F
  pub hypot : List F → F
  pub is_zero : F → Bool
  pub is_finite : F → Bool
  pub divide : F → F → F

abbrev pub invalid_vectors : Failure
invalid_vectors = runtime_failure "invalid_embedding_response" "Embedding vectors are invalid" 502

module _ {V F : Type 0} (floats : Floats V F) where
  unfoldable pub read_values : List V → Result (List F)
  read_values [] = ok []
  read_values (v ∷ vs) = do
    x ← need invalid_vectors (floats.read v)
    xs ← read_values vs
    ok (x ∷ xs)

  -- The values themselves, or divided by their norm.
  pub normalized : String → List F → List F
  normalized normalization values =
      if str_eq normalization "l2"
      then map (λ x. floats.divide x (floats.hypot values)) values
      else values

  pub with_norm : String → List F → Result (List F)
  unfolding normalized
  with_norm normalization values =
      if floats.is_zero (floats.hypot values) || not (floats.is_finite (floats.hypot values))
      then err invalid_vectors
      else ok (normalized normalization values)

  -- One vector; what is no list or tuple is `none`.
  unfoldable pub checked_vector : ℕ → String → Option (List V) → Result (List F)
  unfolding with_norm read_values
  checked_vector dimensions normalization none = err invalid_vectors
  checked_vector dimensions normalization (some vector) =
      if not (length vector == dimensions)
      then err invalid_vectors
      else (do values ← read_values vector; with_norm normalization values)

  unfoldable pub checked_each : ℕ → String → List (Option (List V)) → Result (List (List F))
  checked_each dimensions normalization [] = ok []
  checked_each dimensions normalization (vector ∷ vectors) = do
    values ← checked_vector dimensions normalization vector
    rest ← checked_each dimensions normalization vectors
    ok (values ∷ rest)

  -- `checked_vectors`
  unfoldable pub checked_vectors :
      (count dimensions : ℕ) → String → Option (List (Option (List V))) → Result (List (List F))
  unfolding checked_each
  checked_vectors count dimensions normalization none = err invalid_vectors
  checked_vectors count dimensions normalization (some vectors) =
      if not (length vectors == count)
      then err invalid_vectors
      else checked_each dimensions normalization vectors

  length-read_values : (vs : List V) (xs : List F) → read_values vs ≡ ok xs → length xs ≡ length vs
  unfolding read_values
  length-read_values [] xs h = ap length (sym (ok-injective h))
  length-read_values (v ∷ vs) xs h =
      let (x, _, h₁) =
        >>=-eq-ok (need invalid_vectors (floats.read v)) (λ x. read_values vs >>= λ xs. ok (x ∷ xs))
          h in
      let (rest, read, h₂) = >>=-eq-ok (read_values vs) (λ xs. ok (x ∷ xs)) h₁ in
      omega (arith, ap length (ok-injective h₂), length-read_values vs rest read)

  length-normalized :
      (normalization : String) (values : List F)
      → length (normalized normalization values) ≡ length values
  unfolding normalized
  length-normalized normalization values = elim (Bool-cases (str_eq normalization "l2")) [
    | inl l2 ↦ rw l2 (length-map (λ x. floats.divide x (floats.hypot values)) values)
    | inr plain ↦ rw plain refl
  ]

  with_norm-ok :
      (normalization : String) (values xs : List F)
      → with_norm normalization values ≡ ok xs
      → normalized normalization values ≡ xs
  unfolding with_norm
  with_norm-ok normalization values xs h =
      elim (Bool-cases
        (floats.is_zero (floats.hypot values) || not (floats.is_finite (floats.hypot values)))) [
          | inl bad ↦ cc (rw bad at h)
          | inr good ↦ ok-injective (rw good at h)
        ]

  length-checked_vector :
      (dimensions : ℕ) (normalization : String) (vector : Option (List V)) (xs : List F)
      → checked_vector dimensions normalization vector ≡ ok xs
      → length xs ≡ dimensions
  unfolding checked_vector
  length-checked_vector dimensions normalization none xs h = cc
  length-checked_vector dimensions normalization (some vector) xs h =
      elim (Bool-cases (length vector == dimensions)) [
        | inr other ↦ cc (rw other at h)
        | inl same ↦
            let (values, read, h₁) =
              >>=-eq-ok (read_values vector) (with_norm normalization) (rw same at h) in
            omega (
              arith,
              ap length (with_norm-ok normalization values xs h₁),
              length-normalized normalization values,
              length-read_values vector values read,
              (==_iff (length vector) dimensions).0 same,
            )
      ]

  checked_each-shape :
      (dimensions : ℕ) (normalization : String) (vectors : List (Option (List V)))
      (result : List (List F))
      → checked_each dimensions normalization vectors ≡ ok result
      → (length result ≡ length vectors) × All (λ xs. length xs ≡ dimensions) result
  unfolding checked_each
  checked_each-shape dimensions normalization [] result h =
      subst (λ rs. (length rs ≡ 0) × All (λ xs. length xs ≡ dimensions) rs) (ok-injective h)
        (refl, tt)
  checked_each-shape dimensions normalization (vector ∷ vectors) result h =
      let (xs, read, h₁) =
        >>=-eq-ok (checked_vector dimensions normalization vector)
          (λ xs. checked_each dimensions normalization vectors >>= λ rest. ok (xs ∷ rest)) h in
      let (rest, later, h₂) =
        >>=-eq-ok (checked_each dimensions normalization vectors) (λ rest. ok (xs ∷ rest)) h₁ in
      let (count, all_sized) = checked_each-shape dimensions normalization vectors rest later in
      subst (λ rs. (length rs ≡ suc (length vectors)) × All (λ xs. length xs ≡ dimensions) rs)
        (ok-injective h₂)
        (ap suc count, (length-checked_vector dimensions normalization vector xs read, all_sized))

  -- Vectors that pass the check are as many as were asked for, each of the profile's dimensions.
  pub checked_vectors-shape :
      (count dimensions : ℕ) (normalization : String) (vectors : Option (List (Option (List V))))
      (result : List (List F))
      → checked_vectors count dimensions normalization vectors ≡ ok result
      → (length result ≡ count) × All (λ xs. length xs ≡ dimensions) result
  unfolding checked_vectors
  checked_vectors-shape count dimensions normalization none result h = cc
  checked_vectors-shape count dimensions normalization (some vectors) result h =
      elim (Bool-cases (length vectors == count)) [
        | inr other ↦ cc (rw other at h)
        | inl same ↦
            let (sized, all_sized) =
              checked_each-shape dimensions normalization vectors result (rw same at h) in
            (sized ∙ (==_iff (length vectors) count).0 same, all_sized)
      ]
