-- ===== src/Json.antt =====
-- JSON values as `json.loads` gives them. A number is its literal, and an object lists its keys in
-- their order.
use agent_pay.Prelude.{Text, ◌==◌, List_eq, ℕ_eq, Option, none, some, if◌then◌else◌}

mutual
  pub data Json : Type 0 where
    null true false : Json
    number text : Text → Json
    array : Values → Json
    object : Fields → Json

  pub data Values : Type 0 where
    nil : Values
    cons : Json → Values → Values

  pub data Fields : Type 0 where
    empty : Fields
    field : Text → Json → Fields → Fields

-- `payload.get(key)`
unfoldable pub get : Text → Fields → Option Json
get key empty = none
get key (field k v fs) = if k == key then some v else get key fs

-- The isinstance test for `str`.
abbrev pub text_of : Option Json → Option Text
text_of (some (text t)) = some t
text_of other = none
