-- ===== src/Configuration/Loaded/Profiles.antt =====
-- What the loader admits as a profile.
use mathlib.Core.Path.{subst}
use local_agent_runtime.Base.{
  ℕ, ◌≤◌, String, ◌≡◌, Bool, true, false, not, ◌&&◌, ◌||◌, none, some, List, [], ◌∷◌, arith,
  is_empty, AllValues, lookup, ℤ, pos, negsuc,
}
use local_agent_runtime.Failure.{ok, >>=-eq-ok, ok-injective, raise_if-passed}
use local_agent_runtime.Json.{Json, bool, Fields, end, field}
use local_agent_runtime.Json.Read.{get, get_or_null, only_fields, flag_of, need, need-some}
use local_agent_runtime.Configuration.{identifier, key_identifier, mapping, said}
use local_agent_runtime.Configuration.Load.{of_profile, profile_fields, read_profile_efforts}
use local_agent_runtime.Embeddings.{or_default}
use local_agent_runtime.Contracts.{Limits, ProviderConnection, ModelProfile}
use local_agent_runtime.Configuration.Profile.{
  limit_names, all_ints, limit_value, raw_limits, read_limits, read_model, task_codes,
  model_options_of, bounded_limits, bounded_limit,
}
use local_agent_runtime.Configuration.Load.{
  is_external, finish_profile, permit_profile, read_profile, read_profiles,
}

-- The bounds that the loader puts on a profile's limits.
pub record IsWithinBounds (limits : Limits) : Type 0 where
  pub timeout : (1 ≤ limits.timeout_seconds) × (limits.timeout_seconds ≤ 900)
  pub input : (1000 ≤ limits.max_input_chars) × (limits.max_input_chars ≤ 200000)
  pub output : (1000 ≤ limits.max_output_chars) × (limits.max_output_chars ≤ 100000)
  pub output_tokens : (1 ≤ limits.max_output_tokens) × (limits.max_output_tokens ≤ 128000)
  pub tool_rounds : limits.max_tool_rounds ≤ 32

bounded_limit-bounds :
    (low high : ℕ) (message : String) (n : ℤ) (limit : ℕ)
    → bounded_limit low high message n ≡ ok limit
    → (low ≤ limit) × (limit ≤ high)
unfolding bounded_limit
bounded_limit-bounds low high message (pos n) limit h = ground arith
bounded_limit-bounds low high message (negsuc n) limit h = cc

bounded_limits-IsWithinBounds :
    (raw : Fields) (limits : Limits) → bounded_limits raw ≡ ok limits → IsWithinBounds limits
unfolding bounded_limits
bounded_limits-IsWithinBounds raw limits h =
    let fits = λ (low high : ℕ) (message name : String) (default limit : ℕ).
      bounded_limit-bounds low high message (limit_value raw name default) limit in
    record {
      timeout = ground (
        arith,
        fits 1 900 "Profile timeout is out of bounds" "timeout_seconds" 180 limits.timeout_seconds,
      );
      input = ground (
        arith,
        fits 1000 200000 "Profile input limit is out of bounds" "max_input_chars" 140000
            limits.max_input_chars,
      );
      output = ground (
        arith,
        fits 1000 100000 "Profile output limit is out of bounds" "max_output_chars" 50000
            limits.max_output_chars,
      );
      output_tokens = ground (
        arith,
        fits 1 128000 "Profile token limit is out of bounds" "max_output_tokens" 4096
            limits.max_output_tokens,
      );
      tool_rounds = ground (
        arith,
        fits 0 32 "Profile tool-round limit is out of bounds" "max_tool_rounds" 12
            limits.max_tool_rounds,
      );
    }

read_limits-IsWithinBounds :
    (value : Json) (limits : Limits) → read_limits value ≡ ok limits → IsWithinBounds limits
unfolding read_limits
read_limits-IsWithinBounds value limits h =
    let (raw, given, h₁) = >>=-eq-ok (raw_limits value) _ h in
    let (known, h₂) = raise_if-passed (not (only_fields limit_names raw)) _ _ h₁ in
    let (numbers, h₃) = raise_if-passed (not (all_ints raw)) _ _ h₂ in
    bounded_limits-IsWithinBounds raw limits h₃

-- The profile's provider is configured, and the profile allows external processing where it is
-- external.
abbrev pub may_run : List (String × ProviderConnection) → ModelProfile → Bool
may_run providers profile = elim (lookup profile.provider_id providers) [
  | none ↦ false
  | some provider ↦ not (is_external provider.processing) || profile.allow_external_processing
]

-- What the loader promises of a profile, beside the providers of the configuration.
pub record IsAdmitted (providers : List (String × ProviderConnection)) (profile : ModelProfile)
    : Type 0 where
  pub provided : may_run providers profile ≡ true
  pub bounded : IsWithinBounds profile.limits
  pub one_policy : (is_empty profile.catalog_model_tasks || is_empty profile.model_options) ≡ true

finish_profile-IsAdmitted :
    (providers : List (String × ProviderConnection)) (profile_id provider_id model : String)
    (external_allowed private_allowed : Bool) (raw : Fields) (provider : ProviderConnection)
    (profile : ModelProfile)
    → lookup provider_id providers ≡ some provider
    → (is_external provider.processing && not external_allowed) ≡ false
    → finish_profile profile_id provider_id model external_allowed private_allowed raw ≡ ok profile
    → IsAdmitted providers profile
unfolding finish_profile
finish_profile-IsAdmitted providers profile_id provider_id model external_allowed private_allowed
      raw provider profile found allowed h =
    let (tasks, qualified, h₁) =
      >>=-eq-ok
        (task_codes (of_profile profile_id " qualified tasks are invalid")
          (get "qualified_tasks" raw))
        _ h in
    let (catalog_tasks, cataloged, h₂) =
      >>=-eq-ok
        (task_codes (of_profile profile_id " catalog model tasks are invalid")
          (get "catalog_model_tasks" raw))
        _ h₁ in
    let (options, read, h₃) =
      >>=-eq-ok (model_options_of profile_id (get_or_null "model_options" raw)) _ h₂ in
    let (one_policy, h₄) =
      raise_if-passed (not (is_empty catalog_tasks) && not (is_empty options)) _ _ h₃ in
    let (efforts, chosen, h₅) = >>=-eq-ok (read_profile_efforts profile_id raw) _ h₄ in
    let (limits, bounded, h₆) = >>=-eq-ok (read_limits (get_or_null "limits" raw)) _ h₅ in
    subst (IsAdmitted providers) (ok-injective h₆) (record {
      provided = rw (found, may_run) (ground arith);
      bounded = read_limits-IsWithinBounds (get_or_null "limits" raw) limits bounded;
      one_policy = ground arith;
    })

permit_profile-IsAdmitted :
    (providers : List (String × ProviderConnection)) (profile_id : String) (raw : Fields)
    (profile : ModelProfile)
    → permit_profile providers profile_id raw ≡ ok profile
    → IsAdmitted providers profile
unfolding permit_profile
permit_profile-IsAdmitted providers profile_id raw profile h =
    let (provider_id, named, h₁) =
      >>=-eq-ok (identifier (get_or_null "provider" raw) "Profile provider") _ h in
    let (provider, found, h₂) =
      >>=-eq-ok
        (need (of_profile profile_id " references an unknown provider")
          (lookup provider_id providers))
        _ h₁ in
    let (model, chosen, h₃) =
      >>=-eq-ok
        (read_model (get_or_null "model" raw) (said ("Profile " ∷ profile_id ∷ " model" ∷ []))) _
        h₂ in
    let (external_allowed, flagged, h₄) =
      >>=-eq-ok
        (need (of_profile profile_id " processing flags are invalid")
          (flag_of (get_or_null "allow_external_processing" raw)))
        _ h₃ in
    let (private_allowed, private_flagged, h₅) =
      >>=-eq-ok
        (need (of_profile profile_id " processing flags are invalid")
          (flag_of (or_default (get "allow_private_processing" raw) (bool false))))
        _ h₄ in
    let (permitted, h₆) =
      raise_if-passed (is_external provider.processing && not external_allowed) _ _ h₅ in
    finish_profile-IsAdmitted providers profile_id provider_id model external_allowed
      private_allowed raw provider profile (need-some _ _ found) permitted h₆

read_profile-IsAdmitted :
    (providers : List (String × ProviderConnection)) (raw_id : String) (value : Json)
    (profile : ModelProfile)
    → read_profile providers raw_id value ≡ ok profile
    → IsAdmitted providers profile
unfolding read_profile
read_profile-IsAdmitted providers raw_id value profile h =
    let (profile_id, named, h₁) = >>=-eq-ok (key_identifier raw_id "Profile identifier") _ h in
    let (raw, given, h₂) = >>=-eq-ok (mapping value (said ("Profile " ∷ profile_id ∷ []))) _ h₁ in
    let (known, h₃) = raise_if-passed (not (only_fields profile_fields raw)) _ _ h₂ in
    permit_profile-IsAdmitted providers profile_id raw profile h₃

pub read_profiles-IsAdmitted :
    (providers : List (String × ProviderConnection)) (given : Fields)
    (profiles : List (String × ModelProfile))
    → read_profiles providers given ≡ ok profiles
    → AllValues (IsAdmitted providers) profiles
unfolding read_profiles
read_profiles-IsAdmitted providers end profiles h =
    subst (AllValues (IsAdmitted providers)) (ok-injective h) tt
read_profiles-IsAdmitted providers (field raw_id value fs) profiles h =
    let (profile, one, h₁) = >>=-eq-ok (read_profile providers raw_id value) _ h in
    let (rest, others, h₂) = >>=-eq-ok (read_profiles providers fs) _ h₁ in
    subst (AllValues (IsAdmitted providers)) (ok-injective h₂) (
      read_profile-IsAdmitted providers raw_id value profile one,
      read_profiles-IsAdmitted providers fs rest others,
    )
