-- ===== src/Contracts/Tests.antt =====
-- A profile that declares two of the three efforts of its route.
use local_agent_runtime.Base.{◌≡◌, refl, true, false, some, List, [], ◌∷◌}
use local_agent_runtime.Failure.{ok}
use local_agent_runtime.Contracts.{ModelProfile, default_limits}
use local_agent_runtime.Contracts.Efforts.{ReasoningEffort, low, high, max, has_effort}
use local_agent_runtime.Contracts.Reasoning.{has_default, resolve_efforts, ordered}
use local_agent_runtime.Contracts.Reasoning.Delivery.{resolve_efforts-delivered}

abbrev careful : ModelProfile
careful = record {
  id = "careful";
  provider_id = "codex";
  model = "default";
  allow_external_processing = true;
  allow_private_processing = false;
  limits = default_limits;
  qualified_tasks = [];
  reasoning_efforts = high ∷ low ∷ [];
  default_reasoning_effort = some low;
  model_options = [];
  catalog_model_tasks = [];
}

abbrev route : List ReasoningEffort
route = low ∷ high ∷ max ∷ []

careful-resolved : resolve_efforts careful route [] ≡ ok (low ∷ high ∷ [])
unfolding resolve_efforts ordered
careful-resolved = refl

resolve_efforts-delivered_example :
    ((e : ReasoningEffort) → has_effort e (low ∷ high ∷ []) ≡ true → has_effort e route ≡ true)
    × (has_default (some low) (low ∷ high ∷ []) ≡ true)
resolve_efforts-delivered_example =
    resolve_efforts-delivered careful route [] (low ∷ high ∷ []) careful-resolved refl
