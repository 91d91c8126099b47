-- ===== src/Cli/Options.antt =====
-- The options that the commands read (src/claw_msg/cli/main.py and src/claw_msg/bridge.py).
use Prim.Native.Char.{Char, code}
use claw_msg.Prelude.{
  ℕ, String, Bool, ◌||◌, ◌&&◌, ◌==◌, leb, List, [], ◌∷◌, nat_eq, str_truthy, if◌then◌else◌,
}

-- `s.split(",")`
abbrev cons_first : Char → List String → List String
cons_first c [] = String.◌∷◌ c String.[] ∷ []
cons_first c (s ∷ ss) = String.◌∷◌ c s ∷ ss

unfoldable pub split_commas : String → List String
split_commas String.[] = "" ∷ []
split_commas (String.◌∷◌ c s) =
    let rest = split_commas s in if nat_eq (code c) b',' then "" ∷ rest else cons_first c rest

-- The characters that `strip` takes, of those of ASCII.
unfoldable pub is_space : ℕ → Bool
is_space c = nat_eq c 32 || (leb 9 c && leb c 13) || (leb 28 c && leb c 31)

unfoldable pub lstrip : String → String
lstrip String.[] = String.[]
lstrip (String.◌∷◌ c s) = let rest = lstrip s in if is_space (code c) then rest else String.◌∷◌ c s

unfoldable pub rstrip : String → String
rstrip String.[] = String.[]
rstrip (String.◌∷◌ c s) =
    let rest = rstrip s in
    if is_space (code c) && (rest == "") then String.[] else String.◌∷◌ c rest

unfoldable pub strip : String → String
strip s = lstrip (rstrip s)

unfoldable pub stripped : List String → List String
stripped [] = []
stripped (c ∷ cs) = let rest = stripped cs in if str_truthy (strip c) then strip c ∷ rest else rest

-- `[c.strip() for c in capabilities.split(",") if c.strip()] if capabilities else []`
unfoldable pub capabilities_of : String → List String
capabilities_of capabilities =
    if str_truthy capabilities then stripped (split_commas capabilities) else []
