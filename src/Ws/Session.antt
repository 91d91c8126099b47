-- ===== src/Ws/Session.antt =====
-- The life of a connection: the handshake, the flush of the queue, the loop, and the end
-- (`websocket_endpoint`, src/claw_msg/server/routes_ws.py).
use Prim.Native.String.{len}
use claw_msg.Prelude.{ℕ, String, Option, none, some, List, [], ◌∷◌, ltb, str_truthy, if◌then◌else◌}
use claw_msg.Json.{Json, null, boolean, number, str, array, object, end, get_field, get_or}
use claw_msg.Broker.{register, unregister}
use claw_msg.Presence.{set_online, set_offline}
use claw_msg.OfflineQueue.{flush_for_agent}
use claw_msg.Auth.{Crypto, authenticate_token}
use claw_msg.Exec.{
  MsgData, auth_ok, auth_fail, message_receive, ping, close_frame, Socket, Env, World,
  attribute_error, Result, ok, raised, Exec, pure, raise, modify_db, ◌>>◌,
}
use claw_msg.Ws.Frames.{Parsers, send_text, is_type, max_ws_frame_size_bytes, handle_text}

-- What `receive_text` gives: a text, or nothing in time.
pub data Event : Type 0 where
  timeout : Event
  received : String → Event

-- `ws.close`
abbrev pub close : Env → Socket → ℕ → Exec (Unit {0})
close env ws code = send_text env ws (close_frame code)

-- How the handshake ends: with an agent, or with a closed connection.
pub data Handshake : Type 0 where
  accepted : String → Handshake
  refused : Handshake

abbrev pub close_with : Env → Socket → ℕ → Exec Handshake
close_with env ws code = do close env ws code; pure refused

-- `frame.get("payload", {}).get("token", "")`; `none` is an error of a value without `get`, or of
-- a token without `encode`.
abbrev pub token_text : Option Json → Option String
token_text none = some ""
token_text (some (str s)) = some s
token_text (some null) = none
token_text (some (boolean b)) = none
token_text (some (number n)) = none
token_text (some (array xs)) = none
token_text (some (object fs)) = none

abbrev pub token_of : Json → Option String
token_of (object fs) = token_text (get_field "token" fs)
token_of null = none
token_of (boolean b) = none
token_of (number n) = none
token_of (str s) = none
token_of (array xs) = none

abbrev pub refuse_token : Env → Socket → Exec Handshake
refuse_token env ws = do send_text env ws auth_fail; close_with env ws 4003

abbrev pub accept_agent : Env → Socket → Option String → Exec Handshake
accept_agent env ws none = refuse_token env ws
accept_agent env ws (some agent) =
    if str_truthy agent
    then (send_text env ws (auth_ok agent) >> pure (accepted agent))
    else refuse_token env ws

abbrev pub check_token : Crypto → Env → Socket → Option String → Exec Handshake
check_token c env ws none w = raise attribute_error w
check_token c env ws (some token) w = accept_agent env ws (authenticate_token c token w.db.tables) w

abbrev pub check_auth : Crypto → Env → Socket → Json → Exec Handshake
check_auth c env ws (object fs) =
    if is_type "auth" (get_field "type" fs)
    then check_token c env ws (token_of (get_or (get_field "payload" fs) (object end)))
    else close_with env ws 4002
check_auth c env ws null = raise attribute_error
check_auth c env ws (boolean b) = raise attribute_error
check_auth c env ws (number n) = raise attribute_error
check_auth c env ws (str s) = raise attribute_error
check_auth c env ws (array xs) = raise attribute_error

abbrev pub check_size : Crypto → Env → Socket → String → Option Json → Exec Handshake
check_size c env ws raw none = close_with env ws 4001
check_size c env ws raw (some frame) =
    if ltb max_ws_frame_size_bytes (len raw)
    then close_with env ws 4004
    else check_auth c env ws frame

unfoldable pub handshake : Crypto → Parsers → Env → Socket → Event → Exec Handshake
handshake c p env ws timeout = close_with env ws 4001
handshake c p env ws (received raw) = check_size c env ws raw (p.loads raw)

abbrev pub register_agent : String → Socket → Exec (Unit {0})
register_agent agent ws w = (ok tt, record w { connections = register w.connections agent ws })

abbrev pub unregister_agent : String → Socket → Exec (Unit {0})
unregister_agent agent ws w = (ok tt, record w { connections = unregister w.connections agent ws })

-- The loop over `pending`: the first send that fails ends it.
unfoldable pub send_pending : Env → Socket → List MsgData → World → World
send_pending env ws [] w = w
send_pending env ws (msg ∷ msgs) w =
    if env.alive ws
    then send_pending env ws msgs (send_text env ws (message_receive msg) w).1
    else w

unfoldable pub flush_backlog : Env → Socket → String → Exec (Unit {0})
flush_backlog env ws agent w =
    let (msgs, db) = flush_for_agent agent env.now w.db in
    (ok tt, send_pending env ws msgs (record w { db = db }))

-- `register`, `set_online` and the flush.
unfoldable pub open_session : Env → Socket → String → Exec (Unit {0})
open_session env ws agent = do
  register_agent agent ws
  modify_db (set_online agent env.now)
  flush_backlog env ws agent

-- One turn of the loop; an error ends the loop.
unfoldable pub handle_event : Parsers → Env → Socket → String → Event → Exec (Unit {0})
handle_event p env ws agent timeout = send_text env ws ping
handle_event p env ws agent (received raw) = handle_text p env ws agent raw

-- The turns; the end of the list is the `WebSocketDisconnect`.
unfoldable pub message_loop : Parsers → Socket → String → List (Env × Event) → World → World
message_loop p ws agent [] w = w
message_loop p ws agent ((env, e) ∷ events) w =
    let (r, w') = handle_event p env ws agent e w in
    let rest = message_loop p ws agent events w' in elim r [ ok u ↦ rest | raised x ↦ w' ]

-- The `finally`.
unfoldable pub close_session : Env → Socket → String → World → World
close_session env ws agent w =
    let w' = record w { connections = unregister w.connections agent ws } in
    record w' { db = set_offline agent env.now w'.db }

abbrev pub serve :
    Parsers → Env → Env → Socket → List (Env × Event) → Result Handshake → World → World
serve p env last ws events (raised x) w = w
serve p env last ws events (ok refused) w = w
serve p env last ws events (ok (accepted agent)) w =
    close_session last ws agent (message_loop p ws agent events (open_session env ws agent w).1)

-- The endpoint: `env` is the outside at the handshake, `last` at the end.
unfoldable pub websocket_endpoint :
    Crypto → Parsers → Env → Env → Socket → Event → List (Env × Event) → World → World
websocket_endpoint c p env last ws first events w =
    let (r, w') = handshake c p env ws first w in serve p env last ws events r w'
