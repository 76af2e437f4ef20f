-- ===== src/Values.antt =====
-- The values of a message payload: what `Mapping[str, object]` holds once it has come from JSON.
-- Floats are abstract; an int is the float that `float(value)` gives.
use agenthedge.Prelude.{Bool, Option, none, some, [], ◌∷◌, String, Dict, get, if◌then◌else◌, ◌==◌}

mutual
  pub data Value (F : Type 0) : Type 0 where
    null : Value F
    boolean : Bool → Value F
    number : F → Value F
    text : String → Value F
    array : Items F → Value F
    object : Fields F → Value F

  pub data Items (F : Type 0) : Type 0 where
    nil : Items F
    cons : Value F → Items F → Items F

  pub data Fields (F : Type 0) : Type 0 where
    end : Fields F
    field : String → Value F → Fields F → Fields F

abbrev pub Payload : Type 0 → Type 0
Payload F = Dict (Value F)

module _ {F : Type 0} where
  -- `dict(mapping)`, and back
  unfoldable pub to_dict : Fields F → Payload F
  to_dict end = []
  to_dict (field k v r) = (k, v) ∷ to_dict r

  unfoldable pub of_dict : Payload F → Fields F
  of_dict [] = end
  of_dict ((k, v) ∷ d) = field k v (of_dict d)

  -- `payload.get(key)`, which is `None` on a missing key
  unfoldable pub get_value : String → Payload F → Value F
  get_value key payload = elim (get key payload) [ none ↦ null | some v ↦ v ]

  -- `isinstance(value, str)`, with the text
  unfoldable pub as_text : Value F → Option String
  as_text (text s) = some s
  as_text _ = none

  -- `isinstance(value, dict)`, with the dict
  unfoldable pub as_dict : Value F → Option (Payload F)
  unfolding to_dict
  as_dict (object fields) = some (to_dict fields)
  as_dict _ = none

  -- `isinstance(value, str) and value`
  unfoldable pub nonempty_text : Value F → Option String
  nonempty_text (text s) = if s == "" then none else some s
  nonempty_text _ = none
