-- ===== src/Prelude/Text.antt =====
-- Texts: equality of whole texts, ASCII case folding, and Python's truth of an optional text.
use Prim.Native.Nat.{ℕ, ◌+◌}
use Prim.Native.Char.{code}
use Prim.Native.String.{String}
use mathlib.Core.Path.{◌≡◌, refl}
use mathlib.Core.Logic.{◌↔◌}
use mathlib.Core.Bool.{Bool, true, false, not, ◌&&◌}
use mathlib.Core.Option.{Option, none, some}
use mathlib.Core.List.{List, [], ◌∷◌, map}
use native.Mathlib.Omega.{arith}
use text.Mathlib.Text.{◌==◌ as str_eq}
use text.Mathlib.TextEquality.{eq_iff as str_eq_iff}
use claw_msg.Prelude.Tests.{nat_eq, nat_eq_iff, leb, if◌then◌else◌}

infix 50 ◌==◌
-- Shut, so that a proof splits on it as on any Boolean and reads it through `eq_iff`.
unfoldable pub ◌==◌ : String → String → Bool
s == t = str_eq s t

pub eq_iff : (s t : String) → ((s == t) ≡ true) ↔ (s ≡ t)
unfolding ◌==◌
eq_iff s t = str_eq_iff s t

pub eq_refl : (s : String) → (s == s) ≡ true
eq_refl s = (eq_iff s s).1 refl

abbrev pub opt_eq : Option String → String → Bool
opt_eq none s = false
opt_eq (some t) s = t == s

-- The code points of a text.
abbrev pub codes : String → List ℕ
codes String.[] = []
codes (String.◌∷◌ c s) = code c ∷ codes s

-- `COLLATE NOCASE` of SQLite folds the 26 ASCII letters and nothing else.
unfoldable pub fold : ℕ → ℕ
fold c = if leb b'A' c && leb c b'Z' then c + 32 else c

unfoldable pub codes_eq : List ℕ → List ℕ → Bool
codes_eq [] [] = true
codes_eq [] (d ∷ ds) = false
codes_eq (c ∷ cs) [] = false
codes_eq (c ∷ cs) (d ∷ ds) = nat_eq c d && codes_eq cs ds

unfoldable pub nocase_eq : String → String → Bool
unfolding fold codes_eq
nocase_eq s t = codes_eq (map fold (codes s)) (map fold (codes t))

pub codes_eq_iff : (xs ys : List ℕ) → (codes_eq xs ys ≡ true) ↔ (xs ≡ ys)
unfolding codes_eq
codes_eq_iff [] [] = ground arith
codes_eq_iff [] (y ∷ ys) = ground arith
codes_eq_iff (x ∷ xs) [] = ground arith
codes_eq_iff (x ∷ xs) (y ∷ ys) = ground (arith, codes_eq_iff xs ys, nat_eq_iff x y)

pub nocase_eq_iff :
    (s t : String) → (nocase_eq s t ≡ true) ↔ (map fold (codes s) ≡ map fold (codes t))
unfolding nocase_eq
nocase_eq_iff s t = codes_eq_iff (map fold (codes s)) (map fold (codes t))

-- Python's truth value of a `str` and of a `str | None`.
abbrev pub str_truthy : String → Bool
str_truthy s = not (s == "")

abbrev pub truthy : Option String → Bool
truthy none = false
truthy (some s) = str_truthy s
