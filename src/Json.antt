-- ===== src/Json.antt =====
-- JSON values, as `json.loads` returns them (a number is kept as its text), and the reads that
-- the frames' handlers make of them.
use claw_msg.Prelude.{String, Bool, Option, none, some, ◌==◌, if◌then◌else◌}

mutual
  pub data Json : Type 0 where
    null : Json
    boolean : Bool → Json
    number : String → Json
    str : String → Json
    array : Items → Json
    object : Fields → Json

  pub data Items : Type 0 where
    nil : Items
    cons : Json → Items → Items

  pub data Fields : Type 0 where
    end : Fields
    field : String → Json → Fields → Fields

-- `obj.get(key)`; in a JSON text that repeats a key the last one counts, as in a dict.
unfoldable pub get_field : String → Fields → Option Json
get_field k end = none
get_field k (field j v fs) = elim (get_field k fs) [
  | none ↦ if j == k then some v else none
  | some w ↦ some w
]

-- `obj.get(key, default)`
abbrev pub get_or : Option Json → Json → Json
get_or none d = d
get_or (some v) d = v
