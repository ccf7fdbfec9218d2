-- ===== src/Contracts/Reasoning.antt =====
-- reasoning.py: the efforts that a profile may request, for every adapter alike.
pub mod Delivery
use local_agent_runtime.Base.{
  String, Bool, true, not, Option, none, some, List, [], if◌then◌else◌, any, keep, is_empty, lookup,
  or_else,
}
use local_agent_runtime.Failure.{
  Failure, Result, ok, err, invalid_configuration, ◌>>=◌, ◌>>◌, raise_if,
}
use local_agent_runtime.Contracts.Efforts.{ReasoningEffort, effort_order, has_effort}
use local_agent_runtime.Contracts.{ModelProfile}

-- `ordered`
unfoldable pub ordered : List ReasoningEffort → List ReasoningEffort
ordered values = keep (λ e. has_effort e values) effort_order

-- The messages name the profile there.
abbrev pub undeliverable : Failure
undeliverable = invalid_configuration "Profile declares reasoning efforts this route cannot deliver"

abbrev pub unsupported_default : Failure
unsupported_default =
    invalid_configuration "Profile default reasoning effort is not a supported effort"

-- What a profile declares, if the route can deliver it, or else what is verified of its model.
declared_or_verified :
    ModelProfile
    → List ReasoningEffort
    → List (String × List ReasoningEffort)
    → Result (List ReasoningEffort)
unfolding ordered
declared_or_verified profile transport verified =
    if not (is_empty profile.reasoning_efforts)
    then (if any (λ e. not (has_effort e transport)) profile.reasoning_efforts
        then err undeliverable
        else ok (ordered profile.reasoning_efforts))
    else ok (ordered (or_else (lookup profile.model verified) []))

pub has_default : Option ReasoningEffort → List ReasoningEffort → Bool
has_default none efforts = true
has_default (some e) efforts = has_effort e efforts

-- `resolve_efforts`
unfoldable pub resolve_efforts :
    ModelProfile
    → List ReasoningEffort
    → List (String × List ReasoningEffort)
    → Result (List ReasoningEffort)
unfolding declared_or_verified has_default
resolve_efforts profile transport verified = do
  efforts ← declared_or_verified profile transport verified
  raise_if (not (has_default profile.default_reasoning_effort efforts)) unsupported_default
  ok efforts
