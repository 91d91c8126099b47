-- ===== src/Tests/Ws.antt =====
-- A connection of Bob.
use claw_msg.Prelude.{
  is_empty, not, ◌≡◌, refl, String, ◌==◌, none, some, [], ◌++◌, ◌⊎◌, arith, if◌then◌else◌,
}
use claw_msg.Json.{Json, object, str, field, end}
use claw_msg.Schema.{agent_is, open_policy, offline, online, IsSettled}
use claw_msg.Table.{find_first}
use claw_msg.Presence.{set_online, get_status}
use claw_msg.Broker.{register, is_online, remove_first, sockets_of}
use claw_msg.OfflineQueue.{flush_for_agent}
use claw_msg.Auth.{Crypto}
use claw_msg.Exec.{message_ack, ◌>>=◌}
use claw_msg.Messages.{send_message}
use claw_msg.Ws.Frames.{Parsers, invalid, falsy, send_text, process_request}
use claw_msg.Ws.Session.{received, websocket_endpoint, open_session, close_session}
use claw_msg.Ws.Agreement.{process_request_lem}
use claw_msg.Ws.Entry.{Keeps, Authenticates, websocket_endpoint_guarded}
use claw_msg.Ws.Closing.{close_session_lem}
use claw_msg.Ws.Backlog.{frames_to, sent_if, open_session_lem}
use claw_msg.Tests.Sample.{env, world, tables, agent_row, to_alice}

abbrev pub crypto : Crypto
crypto = record { token_lookup_hash = λ s. s; hash_token = λ s. s; verify_token = λ s t. s == t }

abbrev auth_frame : Json
auth_frame =
    object
      (field "type" (str "auth") (field "payload" (object (field "token" (str "hash") end)) end))

abbrev parsers : Parsers
parsers = record {
  loads = λ s. if s == "auth" then some auth_frame else none;
  model_validate = λ j. invalid [];
  show = λ o. "None";
  bind_number = λ n. falsy;
}

process_request_example :
    process_request env 2 "b1" to_alice world
    ≡ (send_message env to_alice "b1" >>= λ msg. send_text env 2 (message_ack env.uuid)) world
process_request_example = process_request_lem env 2 "b1" to_alice world

guarded_example :
    Keeps world (websocket_endpoint crypto parsers env env 3 (received "auth") [] world)
    ⊎ ((agent : String) × Authenticates crypto parsers (received "auth") world.db.tables agent)
guarded_example = websocket_endpoint_guarded crypto parsers env env 3 (received "auth") [] world

bob_there : find_first (agent_is "b1") tables.agents ≡ some (agent_row "b1" "Bob" open_policy)
unfolding find_first ◌==◌
bob_there = refl

open_session_example :
    let db = set_online "b1" env.now world.db in
    let w' = (open_session env 3 "b1" world).1 in
    (get_status "b1" w'.db ≡ (some online, some env.now))
    × (w'.connections ≡ register world.connections "b1" 3)
    × (w'.wire
        ≡ world.wire ++ sent_if (env.alive 3) (frames_to 3 (flush_for_agent "b1" env.now db).0))
    × ((flush_for_agent "b1" 6000000 w'.db).0 ≡ [])
open_session_example = open_session_lem env 3 "b1" world 6000000 (omega arith) bob_there

close_session_example :
    let w' = close_session env 2 "b1" world in
    (get_status "b1" w'.db ≡ (some offline, some env.now))
    × (is_online w'.connections "b1"
        ≡ not (is_empty (remove_first 2 (sockets_of world.connections "b1"))))
    × ((j : String)
        → sockets_of w'.connections j ≡ (
            if "b1" == j
            then remove_first 2 (sockets_of world.connections "b1")
            else sockets_of world.connections j))
    × IsSettled w'.db
close_session_example = close_session_lem env 2 "b1" world bob_there
