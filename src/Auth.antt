-- ===== src/Auth.antt =====
-- src/claw_msg/server/auth.py: tokens. The hashes of hashlib and bcrypt are parameters.
use Prim.Native.Nat.{suc, zero}
use Prim.Native.String.{String}
use text.Mathlib.Text.{starts_with}
use claw_msg.Prelude.{ℕ, Bool, true, ◌&&◌, Option, none, some, ◌==◌, ◌≡◌, str_truthy, if◌then◌else◌}
use claw_msg.Schema.{AgentRow, Tables}
use claw_msg.Table.{find_first}
use claw_msg.Exec.{Result, ok, raised, http}

-- `hashlib.sha256`, and `bcrypt.hashpw` and `bcrypt.checkpw`.
pub record Crypto : Type 0 where
  pub token_lookup_hash : String → String
  pub hash_token : String → String
  pub verify_token : String → String → Bool

-- A token fits its own hash.
abbrev pub Verifies : Crypto → Type 0
Verifies c = (token : String) → c.verify_token token (c.hash_token token) ≡ true

abbrev pub looked_up_by : String → AgentRow → Bool
looked_up_by lookup r = r.token_lookup == lookup

abbrev pub verified_id : Crypto → String → Option AgentRow → Option String
verified_id c token none = none
verified_id c token (some r) = if c.verify_token token r.token_hash then some r.id else none

unfoldable pub authenticate_token : Crypto → String → Tables → Option String
authenticate_token c token t =
    verified_id c token (find_first (looked_up_by (c.token_lookup_hash token)) t.agents)

-- `s[n:]`
unfoldable pub drop_chars : ℕ → String → String
drop_chars zero s = s
drop_chars (suc n) String.[] = String.[]
drop_chars (suc n) (String.◌∷◌ c s) = drop_chars n s

abbrev pub bearer_token : Option String → Option String
bearer_token none = none
bearer_token (some h) =
    if str_truthy h && starts_with h "Bearer " then some (drop_chars 7 h) else none

abbrev pub agent_or_401 : Option String → Result String
agent_or_401 none = raised (http 401 "Invalid token")
agent_or_401 (some id) = if str_truthy id then ok id else raised (http 401 "Invalid token")

abbrev pub agent_of_token : Crypto → Option String → Tables → Result String
agent_of_token c none t = raised (http 401 "Missing or invalid Authorization header")
agent_of_token c (some token) t = agent_or_401 (authenticate_token c token t)

unfoldable pub get_current_agent : Crypto → Option String → Tables → Result String
get_current_agent c header t = agent_of_token c (bearer_token header) t
