-- ===== src/Models.antt =====
-- What the requests share (src/claw_msg/common/models.py and the routes' `Query` parameters).
use claw_msg.Prelude.{Bool, true, false, Option, none, some, List, take}
use claw_msg.Prelude.Int.{ℤ, pos, negsuc}

-- A field of a PATCH: not in the body, null, or a value.
pub data Patch (A : Type 0) : Type 0 where
  unset nulled : Patch A
  given : A → Patch A

module _ {A : Type 0} where
  abbrev pub is_unset : Patch A → Bool
  is_unset unset = true
  is_unset nulled = false
  is_unset (given x) = false

  abbrev pub is_nulled : Patch A → Bool
  is_nulled unset = false
  is_nulled nulled = true
  is_nulled (given x) = false

  abbrev pub patched : Patch A → A → A
  patched unset old = old
  patched nulled old = old
  patched (given x) old = x

  abbrev pub patched_null : Patch A → Option A → Option A
  patched_null unset old = old
  patched_null nulled old = none
  patched_null (given x) old = some x

  -- `LIMIT n`: a negative one is none.
  abbrev pub limited : ℤ → List A → List A
  limited (pos n) rows = take n rows
  limited (negsuc n) rows = rows
