-- ===== src/Contracts/Discovery.antt =====
-- What an adapter reports of itself, of its readiness and of its models, as contracts.py shows it
-- to a consumer.
use local_agent_runtime.Base.{
  String, codes, Bool, Option, none, some, List, map, is_empty, if◌then◌else◌,
}
use local_agent_runtime.Json.{Json, null, bool, str, arr, obj, Fields, end, field, items}
use local_agent_runtime.Contracts.Efforts.{ReasoningEffort, effort_value}
use local_agent_runtime.Contracts.{
  ModelKind, reasoning, embedding, unknown, DiscoveredModel, ModelDiscovery,
}
use local_agent_runtime.Contracts.Public.{text_or_null}

pub data HealthStatus : Type 0 where
  available unavailable inconclusive : HealthStatus

abbrev pub health_value : HealthStatus → String
health_value available = "available"
health_value unavailable = "unavailable"
health_value inconclusive = "inconclusive"

abbrev pub kind_value : ModelKind → String
kind_value reasoning = "reasoning"
kind_value embedding = "embedding"
kind_value unknown = "unknown"

pub record Capabilities : Type 0 where
  pub text_generation : Bool
  pub structured_output : Bool
  pub tool_requests : Bool
  pub token_streaming : Bool
  pub conversation_continuation : Bool
  pub model_discovery : Bool
  pub token_limit_control : Bool
  pub reasoning_effort_control : Bool
  pub provider_native_web : Bool

-- `Capabilities.public_dict`
unfoldable pub capabilities_json : Capabilities → Json
capabilities_json c = obj (
    field "text_generation" (bool c.text_generation) (
      field "structured_output" (bool c.structured_output) (
        field "tool_requests" (bool c.tool_requests) (
          field "token_streaming" (bool c.token_streaming) (
            field "conversation_continuation" (bool c.conversation_continuation) (
              field "model_discovery" (bool c.model_discovery) (
                field "token_limit_control" (bool c.token_limit_control) (
                  field "reasoning_effort_control" (bool c.reasoning_effort_control)
                    (field "provider_native_web" (bool c.provider_native_web) end)))))))))

pub record ProviderHealth : Type 0 where
  pub status : HealthStatus
  pub installed : Option Bool
  pub authenticated : Option Bool
  pub compatible : Option Bool
  pub detail_code : Option String
  pub effective_model : Option String

abbrev flag_or_null : Option Bool → Json
flag_or_null none = null
flag_or_null (some b) = bool b

-- `ProviderHealth.public_dict`
unfoldable pub provider_health_json : ProviderHealth → Json
provider_health_json h = obj (
    field "status" (str (codes (health_value h.status))) (
      field "installed" (flag_or_null h.installed) (
        field "authenticated" (flag_or_null h.authenticated) (
          field "compatible" (flag_or_null h.compatible) (
            field "detail_code" (text_or_null h.detail_code)
              (field "effective_model" (text_or_null h.effective_model) end))))))

abbrev effort_json : ReasoningEffort → Json
effort_json e = str (codes (effort_value e))

abbrev default_json : Option ReasoningEffort → Json
default_json none = null
default_json (some e) = effort_json e

-- `DiscoveredModel.public_dict`
unfoldable pub discovered_model_json : DiscoveredModel → Json
discovered_model_json m = obj (
    field "model" (str (codes m.model)) (
      field "display_name" (str (codes m.display_name)) (
        field "kind" (str (codes (kind_value m.kind))) (
          field "reasoning_efforts" (arr (items (map effort_json m.reasoning_efforts))) (
            field "default_reasoning_effort" (default_json m.default_reasoning_effort) (
              field "loaded" (flag_or_null m.loaded)
                (field "reasoning_efforts_known" (bool m.reasoning_efforts_known) end)))))))

details_field : List DiscoveredModel → Fields
unfolding discovered_model_json
details_field details =
    if is_empty details
    then end
    else field "details" (arr (items (map discovered_model_json details))) end

abbrev names_json : List String → Json
names_json names = arr (items (map (λ name. str (codes name)) names))

loaded_field : Option (List String) → Fields → Fields
loaded_field none rest = rest
loaded_field (some names) rest = field "loaded_models" (names_json names) rest

-- `ModelDiscovery.public_dict`
unfoldable pub model_discovery_json : ModelDiscovery → Json
unfolding details_field loaded_field
model_discovery_json d = obj (
    field "supported" (bool d.supported) (
      field "models" (names_json d.models) (
        field "detail_code" (text_or_null d.detail_code)
          (loaded_field d.loaded_models (details_field d.details)))))
