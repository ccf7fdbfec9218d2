-- ===== src/Contracts/Efforts.antt =====
-- `ReasoningEffort` of contracts.py and its order in reasoning.py.
use local_agent_runtime.Base.{
  ℕ, String, ◌≡◌, ◌↔◌, Bool, true, false, Option, none, some, List, [], ◌∷◌, arith, ◌==◌, Text,
  codes, same_text, if◌then◌else◌,
}

pub data ReasoningEffort : Type 0 where
  minimal low medium high xhigh max : ReasoningEffort

-- `ORDER = tuple(ReasoningEffort)`
abbrev pub effort_order : List ReasoningEffort
effort_order = minimal ∷ low ∷ medium ∷ high ∷ xhigh ∷ max ∷ []

abbrev pub effort_rank : ReasoningEffort → ℕ
effort_rank minimal = 0
effort_rank low = 1
effort_rank medium = 2
effort_rank high = 3
effort_rank xhigh = 4
effort_rank max = 5

abbrev pub effort_eq : ReasoningEffort → ReasoningEffort → Bool
effort_eq a b = effort_rank a == effort_rank b

abbrev pub effort_value : ReasoningEffort → String
effort_value minimal = "minimal"
effort_value low = "low"
effort_value medium = "medium"
effort_value high = "high"
effort_value xhigh = "xhigh"
effort_value max = "max"

-- `ReasoningEffort(value)`; none is its `ValueError`
find_effort : Text → List ReasoningEffort → Option ReasoningEffort
find_effort value [] = none
find_effort value (e ∷ es) =
    if same_text (codes (effort_value e)) value then some e else find_effort value es

unfoldable pub effort_of_value : Text → Option ReasoningEffort
unfolding find_effort
effort_of_value value = find_effort value effort_order

-- `effort in efforts`
abbrev pub has_effort : ReasoningEffort → List ReasoningEffort → Bool
has_effort e [] = false
has_effort e (x ∷ xs) = if effort_eq x e then true else has_effort e xs

pub effort_eq_iff : (a b : ReasoningEffort) → (effort_eq a b ≡ true) ↔ (a ≡ b)
effort_eq_iff a b = ground arith
