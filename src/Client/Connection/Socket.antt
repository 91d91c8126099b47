-- ===== src/Client/Connection/Socket.antt =====
-- The address of a `Connection`, and what `close` leaves (src/claw_msg/client/connection.py).
use Prim.Native.String.{◌++◌}
use text.Mathlib.Text.{starts_with}
use claw_msg.Prelude.{ℕ, zero, suc, String, Bool, false, Option, none, if◌then◌else◌}
use claw_msg.Credentials.{normalize_broker_url}
use claw_msg.Client.Connection.{WebSocket}

-- `s.replace(old, new)` for an `old` of `n` + 1 characters; `skip` are those of a match that are
-- still to go.
unfoldable pub replace : String → ℕ → String → ℕ → String → String
replace old n new skip String.[] = String.[]
replace old n new (suc skip) (String.◌∷◌ c s) = replace old n new skip s
replace old n new zero (String.◌∷◌ c s) =
    let after = replace old n new n s in
    let rest = replace old n new zero s in
    if starts_with (String.◌∷◌ c s) old then new ++ after else String.◌∷◌ c rest

-- `_ws_url`
unfoldable pub ws_url : String → String
ws_url broker_url =
    normalize_broker_url
      (replace "https://" 7 "wss://" zero (replace "http://" 6 "ws://" zero broker_url))
    ++ "/ws"

-- A connection between its calls: the socket, and whether `listen` is to go on.
pub record Held : Type 0 where
  pub ws : Option WebSocket
  pub running : Bool

-- `__init__`
abbrev pub new_held : Held
new_held = record { ws = none; running = false }

-- `close`
unfoldable pub close : Held → Held
close h = record h { running = false; ws = none }
