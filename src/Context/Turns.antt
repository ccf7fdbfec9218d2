-- ===== src/Context/Turns.antt =====
-- `_turns` of context.py, and the windows that `plan_context` cuts from its turns.
pub mod Laws
use local_agent_runtime.Base.{
  ℕ, zero, suc, ◌+◌, ◌-◌, String, Bool, ◌&&◌, ◌||◌, List, [], ◌∷◌, ◌++◌, str_eq, ◌==◌,
  if◌then◌else◌, length, is_empty, drop, flatten,
}
use local_agent_runtime.Contracts.{Message}

-- `turns[-1].append(index)`, where there is a turn
append_last : List (List ℕ) → ℕ → List (List ℕ)
append_last [] index = []
append_last (turn ∷ []) index = (turn ++ index ∷ []) ∷ []
append_last (turn ∷ next ∷ turns) index = turn ∷ append_last (next ∷ turns) index

-- One round of the loop, on the indices and turns collected so far.
turns_step : ℕ → String → List ℕ × List (List ℕ) → List ℕ × List (List ℕ)
unfolding append_last
turns_step index role (system, turns) =
    if str_eq role "system" && is_empty turns
    then (system ++ index ∷ [], turns)
    else if str_eq role "user" || is_empty turns
    then (system, turns ++ (index ∷ []) ∷ [])
    else (system, append_last turns index)

turns_loop : ℕ → List Message → List ℕ × List (List ℕ) → List ℕ × List (List ℕ)
unfolding turns_step
turns_loop index [] found = found
turns_loop index (m ∷ ms) found = turns_loop (suc index) ms (turns_step index m.role found)

-- The leading system indices, then the turns.
unfoldable pub turns_of : List Message → List ℕ × List (List ℕ)
unfolding turns_loop
turns_of messages = turns_loop 0 messages ([], [])

-- `turns[-kept_turns:]`: with 0 it is the whole list.
unfoldable pub last_turns : ℕ → List (List ℕ) → List (List ℕ)
last_turns kept_turns turns =
    if kept_turns == 0 then turns else drop (length turns - kept_turns) turns

-- the inner function `suffix`
unfoldable pub suffix : List ℕ → List (List ℕ) → ℕ → List ℕ
unfolding last_turns
suffix system turns kept_turns = system ++ flatten (last_turns kept_turns turns)
