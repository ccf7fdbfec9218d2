-- ===== src/Contracts.antt =====
-- contracts.py: the immutable values that the runtime's parts exchange. An instant is a number of
-- microseconds, a `Mapping` with text keys is a list of pairs in insertion order, and the value of
-- an enumeration is given by a function beside it.
mod Efforts
pub mod Public
pub mod Reasoning
mod Tests
pub mod Discovery
unfoldable pub use Efforts.*
use local_agent_runtime.Base.{ℕ, String, Text, Bool, true, false, Option, none, List, [], ℤ}
use local_agent_runtime.Json.{Json, Fields}

pub data ProcessingClass : Type 0 where
  local external : ProcessingClass

pub data ModelKind : Type 0 where
  reasoning embedding unknown : ModelKind

pub data SessionStatus : Type 0 where
  created running waiting_for_tool completed failed canceled : SessionStatus

pub record Limits : Type 0 where
  pub timeout_seconds : ℕ
  pub max_input_chars : ℕ
  pub max_output_chars : ℕ
  pub max_output_tokens : ℕ
  pub max_tool_rounds : ℕ

abbrev pub default_limits : Limits
default_limits = record {
  timeout_seconds = 180;
  max_input_chars = 140000;
  max_output_chars = 50000;
  max_output_tokens = 4096;
  max_tool_rounds = 12;
}

-- `tokens` is a count, so it is not negative.
pub record ContextWindow : Type 0 where
  pub tokens : Option ℕ
  pub source : String

abbrev pub unknown_window : ContextWindow
unknown_window = record { tokens = none; source = "unknown" }

pub record ProviderConnection : Type 0 where
  pub id : String
  pub driver : String
  pub processing : ProcessingClass
  pub command : Option String
  pub endpoint : Option String
  pub credential_ref : Option String
  pub upstream : Option String

pub record ModelOptionPolicy : Type 0 where
  pub id : String
  pub model : String
  pub qualified_tasks : List String
  pub reasoning_efforts : List ReasoningEffort
  pub default_reasoning_effort : Option ReasoningEffort

pub record ModelProfile : Type 0 where
  pub id : String
  pub provider_id : String
  pub model : String
  pub allow_external_processing : Bool
  pub allow_private_processing : Bool
  pub limits : Limits
  pub qualified_tasks : List String
  pub reasoning_efforts : List ReasoningEffort
  pub default_reasoning_effort : Option ReasoningEffort
  pub model_options : List (String × ModelOptionPolicy)
  pub catalog_model_tasks : List String

pub record DiscoveredModel : Type 0 where
  pub model : String
  pub display_name : String
  pub kind : ModelKind
  pub reasoning_efforts : List ReasoningEffort
  pub default_reasoning_effort : Option ReasoningEffort
  pub loaded : Option Bool
  pub reasoning_efforts_known : Bool

-- Without the embedding profiles, which `EmbeddingService` takes by itself.
pub record RuntimeConfiguration : Type 0 where
  pub providers : List (String × ProviderConnection)
  pub profiles : List (String × ModelProfile)
  pub default_profile : String
  pub task_routes : List (String × String)
  pub managed_profiles : List (String × Bool)

pub record ModelDiscovery : Type 0 where
  pub supported : Bool
  pub models : List String
  pub detail_code : Option String
  pub loaded_models : Option (List String)
  pub details : List DiscoveredModel

pub record ToolDefinition : Type 0 where
  pub name : String
  pub description : Text
  pub input_schema : Fields

pub record ToolRequest : Type 0 where
  pub id : String
  pub name : String
  pub arguments : Fields

pub record ToolResult : Type 0 where
  pub request_id : String
  pub name : String
  pub output : Json
  pub is_error : Bool

pub record Message : Type 0 where
  pub role : String
  pub content : Text
  pub tool_requests : List ToolRequest
  pub tool_request_id : Option String
  pub tool_name : Option String

-- `Message(role, content)`
abbrev pub plain_message : String → Text → Message
plain_message role content = record {
  role = role;
  content = content;
  tool_requests = [];
  tool_request_id = none;
  tool_name = none;
}

-- A usage count is an integer in units of 10⁻⁹, which keeps the fractional costs that a provider
-- may report beside its token counts.
abbrev pub Usage : Type 0
Usage = List (String × ℤ)

pub record CompletionResult : Type 0 where
  pub text : Text
  pub tool_requests : List ToolRequest
  pub effective_model : Option String
  pub effective_upstream : Option String
  pub usage : Usage
  pub effective_reasoning_effort : Option ReasoningEffort

pub record Invocation : Type 0 where
  pub messages : List Message
  pub tools : List ToolDefinition
  pub limits : Limits
  pub output_schema : Option Fields
  pub reasoning_effort : Option ReasoningEffort
  pub provider_native_web : Bool
