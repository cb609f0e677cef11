-- ===== src/Json.antt =====
-- JSON values as JSON.parse gives them to the code: an object's keys are distinct, and a number
-- is kept as the text of its literal, since nothing modelled here computes with one.
use chanter_operator.Prelude.{String, Option, none, some, List, [], ◌∷◌, ◌==◌, if◌then◌else◌}

mutual
  pub data Json : Type 0 where
    null : Json
    bool_false bool_true : Json
    number : String → Json
    text : String → Json
    array : Items → Json
    object : Fields → Json

  pub data Items : Type 0 where
    nil : Items
    cons : Json → Items → Items

  pub data Fields : Type 0 where
    end : Fields
    field : String → Json → Fields → Fields

-- `record[key]`, where a missing key is undefined.
unfoldable pub get_field : String → Fields → Option Json
get_field k end = none
get_field k (field j v rest) = if j == k then some v else get_field k rest

abbrev pub keys : Fields → List String
keys end = []
keys (field k v rest) = k ∷ keys rest

abbrev pub items : Items → List Json
items nil = []
items (cons v rest) = v ∷ items rest

-- `typeof value === "string"`
abbrev pub string_of : Option Json → Option String
string_of (some (text s)) = some s
string_of _ = none
