-- ===== src/Configuration/Loaded.antt =====
-- What a configuration that was loaded is like, and that a service starts on it.
mod Profiles
pub use Profiles.{IsWithinBounds, IsAdmitted, may_run}
use mathlib.Core.Path.{subst}
use local_agent_runtime.Base.{
  ℕ, String, Text, ◌≡◌, refl, ap, sym, ◌∙◌, Bool, true, false, not, ◌&&◌, ◌||◌, Option, none, some,
  List, [], ◌∷◌, arith, Bool-cases, inl, inr, ltb, length, if◌then◌else◌, is_empty, any, All,
  AllValues, lookup, has_key, values, keys, or_else,
}
use local_agent_runtime.Failure.{
  Result, ok, err, ◌>>=◌, ◌>>◌, >>=-eq-ok, ok-injective, raise_if, raise_if-passed,
  invalid_configuration,
}
use local_agent_runtime.Json.{Json, obj, Fields, end, field}
use local_agent_runtime.Json.Read.{get, get_or_null, only_fields, flag_of, need}
use local_agent_runtime.Contracts.{ProviderConnection, ModelProfile, RuntimeConfiguration}
use local_agent_runtime.Embeddings.{or_default}
use local_agent_runtime.Service.{Service, is_enabled}
use local_agent_runtime.Service.Activation.{required_profiles, start_service}
use local_agent_runtime.Configuration.{identifier, key_identifier, mapping}
use local_agent_runtime.Configuration.Connection.{Library}
use local_agent_runtime.Configuration.Load.{
  read_providers, read_profiles, read_routes, read_embedding_profiles, bad_managed, read_managed,
  is_disabled, read_policy, Loaded, read_root, read_rest, read_configuration, Document, unreadable,
  load_configuration,
}
use local_agent_runtime.Configuration.Loaded.Profiles.{read_profiles-IsAdmitted}

-- What the loader promises of the whole.
pub record IsLoaded (c : RuntimeConfiguration) : Type 0 where
  pub admitted : AllValues (IsAdmitted c.providers) c.profiles
  pub default_known : has_key c.default_profile c.profiles ≡ true
  pub routes_known : All (λ id. has_key id c.profiles ≡ true) (values c.task_routes)
  pub managed_known : All (λ id. has_key id c.profiles ≡ true) (keys c.managed_profiles)
  pub required_enabled : any (is_disabled c.managed_profiles) (required_profiles c) ≡ false

read_routes-known :
    (profiles : List (String × ModelProfile)) (given : Fields) (routes : List (String × String))
    → read_routes profiles given ≡ ok routes
    → All (λ id. has_key id profiles ≡ true) (values routes)
unfolding read_routes
read_routes-known profiles end routes h =
    subst (λ r. All (λ id. has_key id profiles ≡ true) (values r)) (ok-injective h) tt
read_routes-known profiles (field raw_task value fs) routes h =
    let (task, coded, h₁) = >>=-eq-ok (key_identifier raw_task "Task route") _ h in
    let (id, named, h₂) = >>=-eq-ok (identifier value "Task route profile") _ h₁ in
    let (known, h₃) = raise_if-passed (not (has_key id profiles)) _ _ h₂ in
    let (rest, others, h₄) = >>=-eq-ok (read_routes profiles fs) _ h₃ in
    subst (λ r. All (λ id. has_key id profiles ≡ true) (values r)) (ok-injective h₄)
      (ground arith, read_routes-known profiles fs rest others)

read_managed-known :
    (profiles : List (String × ModelProfile)) (given : Fields) (managed : List (String × Bool))
    → read_managed profiles given ≡ ok managed
    → All (λ id. has_key id profiles ≡ true) (keys managed)
unfolding read_managed
read_managed-known profiles end managed h =
    subst (λ m. All (λ id. has_key id profiles ≡ true) (keys m)) (ok-injective h) tt
read_managed-known profiles (field id value fs) managed h =
    let (known, h₁) = raise_if-passed (not (has_key id profiles)) bad_managed _ h in
    let (enabled, flagged, h₂) = >>=-eq-ok (need bad_managed (flag_of value)) _ h₁ in
    let (rest, others, h₃) = >>=-eq-ok (read_managed profiles fs) _ h₂ in
    subst (λ m. All (λ id. has_key id profiles ≡ true) (keys m)) (ok-injective h₃)
      (ground arith, read_managed-known profiles fs rest others)

read_policy-known :
    (profiles : List (String × ModelProfile)) (default_profile : String)
    (task_routes : List (String × String)) (value : Json) (managed : List (String × Bool))
    → read_policy profiles default_profile task_routes value ≡ ok managed
    → All (λ id. has_key id profiles ≡ true) (keys managed)
      × (any (is_disabled managed) (default_profile ∷ values task_routes) ≡ false)
unfolding read_policy
read_policy-known profiles default_profile task_routes value managed h =
    let (policy, given, h₁) = >>=-eq-ok (mapping value "Activation policy") _ h in
    let (only, h₂) = raise_if-passed (not (only_fields ("managed_profiles" ∷ []) policy)) _ _ h₁ in
    let (listed, named, h₃) =
      >>=-eq-ok (mapping (or_default (get "managed_profiles" policy) (obj end)) "Managed profiles")
        _ h₂ in
    let (found, read, h₄) = >>=-eq-ok (read_managed profiles listed) _ h₃ in
    let (default_on, h₅) = raise_if-passed (is_disabled found default_profile) _ _ h₄ in
    let (routes_on, h₆) = raise_if-passed (any (is_disabled found) (values task_routes)) _ _ h₅ in
    subst
      (λ m.
        All (λ id. has_key id profiles ≡ true) (keys m)
        × (any (is_disabled m) (default_profile ∷ values task_routes) ≡ false))
      (ok-injective h₆)
      (read_managed-known profiles listed found read, rw (default_on, routes_on) refl)

read_rest-IsLoaded :
    (root : Fields) (providers : List (String × ProviderConnection))
    (profiles : List (String × ModelProfile)) (loaded : Loaded)
    → AllValues (IsAdmitted providers) profiles
    → read_rest root providers profiles ≡ ok loaded
    → IsLoaded loaded.configuration
unfolding read_rest
read_rest-IsLoaded root providers profiles loaded admitted h =
    let (default_profile, named, h₁) =
      >>=-eq-ok (identifier (get_or_null "default_profile" root) "Default profile") _ h in
    let (known, h₂) = raise_if-passed (not (has_key default_profile profiles)) _ _ h₁ in
    let (given, mapped, h₃) =
      >>=-eq-ok (mapping (get_or_null "task_routes" root) "Task routes") _ h₂ in
    let (routes, routed, h₄) = >>=-eq-ok (read_routes profiles given) _ h₃ in
    let (embeddings, listed, h₅) =
      >>=-eq-ok
        (mapping (or_default (get "embedding_profiles" root) (obj end)) "Embedding profiles") _
        h₄ in
    let (embedding_profiles, read, h₆) =
      >>=-eq-ok (read_embedding_profiles providers embeddings) _ h₅ in
    let policy = or_default (get "activation_policy" root) (obj end) in
    let (managed, permitted, h₇) =
      >>=-eq-ok (read_policy profiles default_profile routes policy) _ h₆ in
    let (managed_known, enabled) =
      read_policy-known profiles default_profile routes policy managed permitted in
    subst (λ (l : Loaded). IsLoaded l.configuration) (ok-injective h₇)
      (record {
        admitted = admitted;
        default_known = ground arith;
        routes_known = read_routes-known profiles given routes routed;
        managed_known = managed_known;
        required_enabled = enabled;
      })

read_configuration-IsLoaded :
    (library : Library) (value : Json) (loaded : Loaded)
    → read_configuration library value ≡ ok loaded
    → IsLoaded loaded.configuration
unfolding read_configuration
read_configuration-IsLoaded library value loaded h =
    let (root, rooted, h₁) = >>=-eq-ok (read_root value) _ h in
    let (given, mapped, h₂) = >>=-eq-ok (mapping (get_or_null "providers" root) "Providers") _ h₁ in
    let (providers, connected, h₃) = >>=-eq-ok (read_providers library given) _ h₂ in
    let (some_provider, h₄) = raise_if-passed (is_empty providers) _ _ h₃ in
    let (listed, named, h₅) = >>=-eq-ok (mapping (get_or_null "profiles" root) "Profiles") _ h₄ in
    let (profiles, read, h₆) = >>=-eq-ok (read_profiles providers listed) _ h₅ in
    let (some_profile, h₇) = raise_if-passed (is_empty profiles) _ _ h₆ in
    read_rest-IsLoaded root providers profiles loaded
      (read_profiles-IsAdmitted providers listed profiles read) h₇

-- In a configuration that loads, every profile names a configured provider and allows external
-- processing where that provider is external, has limits within the loader's bounds and does not
-- mix the two policies of model options; the default profile, the profile of each task route
-- and each managed profile are configured; and neither the default profile nor a task route's
-- is disabled.
pub load_configuration-IsLoaded :
    (library : Library) (document : Document) (loaded : Loaded)
    → load_configuration library document ≡ ok loaded
    → IsLoaded loaded.configuration
unfolding load_configuration
load_configuration-IsLoaded library document loaded h =
    let (content, read, h₁) = >>=-eq-ok (need unreadable document.content) _ h in
    let (short, h₂) = raise_if-passed (ltb 256000 (length content)) _ _ h₁ in
    let (alias, scanned, h₃) = >>=-eq-ok (need unreadable (document.has_alias content)) _ h₂ in
    let (plain, h₄) = raise_if-passed alias _ _ h₃ in
    let (made, parsed, h₅) = >>=-eq-ok (need unreadable (document.load content)) _ h₄ in
    let (root, rooted, h₆) = >>=-eq-ok made _ h₅ in
    read_configuration-IsLoaded library root loaded h₆

disabled-enabled :
    (managed : List (String × Bool)) (id : String)
    → is_disabled managed id ≡ false
    → or_else (lookup id managed) true ≡ true
disabled-enabled managed id h = ground arith

all_enabled :
    (managed : List (String × Bool)) (ids : List String)
    → any (is_disabled managed) ids ≡ false
    → any (λ id. not (or_else (lookup id managed) true)) ids ≡ false
all_enabled managed [] h = refl
all_enabled managed (id ∷ ids) h = elim (Bool-cases (is_disabled managed id)) [
  | inl disabled ↦ cc (rw disabled at h)
  | inr enabled ↦
      rw (disabled-enabled managed id enabled) (all_enabled managed ids (rw enabled at h))
]

-- A service that keeps no activation state starts on every configuration that loads.
pub load_configuration-starts :
    (library : Library) (document : Document) (loaded : Loaded)
    → load_configuration library document ≡ ok loaded
    → start_service loaded.configuration none
      ≡ ok (record { configuration = loaded.configuration; sessions = []; activation_state = [] })
unfolding start_service is_enabled
load_configuration-starts library document loaded h =
    let c = loaded.configuration in
    let valid = load_configuration-IsLoaded library document loaded h in
    rw (all_enabled c.managed_profiles (required_profiles c) valid.required_enabled) refl
