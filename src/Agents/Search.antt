-- ===== src/Agents/Search.antt =====
-- `GET /agents/` (src/claw_msg/server/routes_agents.py).
use claw_msg.Prelude.{
  ℕ, String, Bool, true, false, ◌&&◌, ◌||◌, Option, none, some, List, [], ◌∷◌, ◌++◌, ◌==◌, any,
  filter, map, nat_eq, str_truthy, codes, fold, if◌then◌else◌, is_empty,
}
use claw_msg.Prelude.Int.{ℤ}
use claw_msg.Schema.{AgentRow, Tables}
use claw_msg.Models.{limited}
use claw_msg.Agents.{AgentProfile, agent_profile}

-- A test of some tail of the text, the whole text and the empty one included.
unfoldable pub some_tail : (List ℕ → Bool) → List ℕ → Bool
some_tail p [] = p []
some_tail p (c ∷ cs) = p (c ∷ cs) || some_tail p cs

abbrev pub match_one : (ℕ → Bool) → (List ℕ → Bool) → List ℕ → Bool
match_one p rest [] = false
match_one p rest (c ∷ cs) = p c && rest cs

-- SQLite's `LIKE`: `%` is any text, `_` is any character, and ASCII letters match in either case.
unfoldable pub like : List ℕ → List ℕ → Bool
like [] text = is_empty text
like (p ∷ ps) text =
    let rest = like ps in
    if nat_eq p b'%'
    then some_tail rest text
    else (if nat_eq p b'_'
        then match_one (λ c. true) rest text
        else match_one (λ c. nat_eq (fold c) (fold p)) rest text)

-- `name LIKE '%…%'`
abbrev pub name_like : String → AgentRow → Bool
name_like name r = like (b'%' ∷ codes name ++ b'%' ∷ []) (codes r.name)

abbrev pub named : Option String → List AgentRow → List AgentRow
named none rows = rows
named (some name) rows = if str_truthy name then filter (name_like name) rows else rows

abbrev pub is_capable : Option String → AgentRow → Bool
is_capable none r = true
is_capable (some capability) r =
    if str_truthy capability then any (λ c. c == capability) r.capabilities else true

-- The capability is looked at after the limit.
unfoldable pub search_agents : Tables → Option String → Option String → ℤ → List AgentProfile
search_agents t name capability limit =
    map agent_profile (filter (is_capable capability) (limited limit (named name t.agents)))
