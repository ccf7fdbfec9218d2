-- ===== src/Json.antt =====
-- The values that `json` reads and writes, and `json.dumps` on them.
pub mod Dumps
pub mod Read
use local_agent_runtime.Base.{String, Text, Bool, List, [], ◌∷◌}

mutual
  -- A finite number is kept as the text that Python prints for it; `nonfinite` is a float that
  -- is `NaN` or an infinity, by its text too.
  pub data Json : Type 0 where
    null : Json
    bool : Bool → Json
    num : Text → Json
    nonfinite : Text → Json
    str : Text → Json
    arr : Items → Json
    obj : Fields → Json

  pub data Items : Type 0 where
    nil : Items
    cons : Json → Items → Items

  -- a mapping, in insertion order
  pub data Fields : Type 0 where
    end : Fields
    field : String → Json → Fields → Fields

abbrev pub items : List Json → Items
items [] = nil
items (v ∷ vs) = cons v (items vs)
