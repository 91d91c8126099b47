-- ===== src/Client/Connection.antt =====
-- src/claw_msg/client/connection.py: one WebSocket, its login, and the loop that listens and comes
-- back after a pause. What the network does is a script: what becomes of each connection, in turn.
-- Delays are in milliseconds.
pub mod Listen
pub mod Backoff
pub mod Acks
pub mod Socket
use claw_msg.Prelude.{
  ℕ, String, Bool, true, false, not, Option, none, some, List, [], ◌∷◌, ◌++◌, str_truthy,
  if◌then◌else◌, ◌==◌,
}
use claw_msg.Json.{
  Json, null, boolean, number, str, array, object, nil, cons, Fields, end, field, get_field, get_or,
}

-- A frame that the client sends.
pub data ClientFrame : Type 0 where
  auth_frame : String → ClientFrame
  pong_frame : ClientFrame
  ack_frame : Json → ClientFrame

-- How a handler of messages ends.
pub data HandlerEnd : Type 0 where
  handled failed cancelled_in_handler : HandlerEnd

-- What a connection has sent, and what has been given to its handler.
pub record Traffic : Type 0 where
  pub sent : List ClientFrame
  pub given : List Json

-- What `websockets` tells of a socket; a version of it has one attribute or the other.
pub record WebSocket : Type 0 where
  pub closed : Option Bool
  pub close_code : Option ℕ

-- The handler of the connection, if it has one, and the truth of a JSON number. The network's part is
-- what has become of the socket by some traffic, and whether the sending of a frame then raises.
pub record Listener : Type 0 where
  pub on_message : Option (Json → HandlerEnd)
  pub number_truthy : String → Bool
  pub socket : Traffic → Option WebSocket
  pub send_raises : ClientFrame → Traffic → Bool

-- Python's truth of a JSON value.
unfoldable pub json_truthy : (String → Bool) → Json → Bool
json_truthy n null = false
json_truthy n (boolean b) = b
json_truthy n (number s) = n s
json_truthy n (str s) = str_truthy s
json_truthy n (array nil) = false
json_truthy n (array (cons x xs)) = true
json_truthy n (object end) = false
json_truthy n (object (field k v fs)) = true

-- A frame leaves the loop running, or ends the stream with an exception.
pub data FrameEnd : Type 0 where
  goes_on fails is_cancelled : FrameEnd

abbrev pub send_frame : ClientFrame → Traffic → Traffic
send_frame f t = record t { sent = t.sent ++ (f ∷ []) }

abbrev is_up : Option Bool → Option ℕ → Bool
is_up (some closed) code = not closed
is_up none none = true
is_up none (some code) = false

-- `connected`
unfoldable pub connected : Option WebSocket → Bool
connected none = false
connected (some ws) = is_up ws.closed ws.close_code

-- `send`: on a connection that is down the frame is dropped; on one that breaks it raises.
unfoldable pub send : Listener → ClientFrame → Traffic → FrameEnd × Traffic
send l frame t =
    if connected (l.socket t)
    then (if l.send_raises frame t then (fails, t) else (goes_on, send_frame frame t))
    else (goes_on, t)

abbrev pub fields_of : Json → Option Fields
fields_of null = none
fields_of (boolean b) = none
fields_of (number n) = none
fields_of (str s) = none
fields_of (array xs) = none
fields_of (object fs) = some fs

-- `frame.get("payload", {})`, where `.get` of what is no object raises.
abbrev pub payload_of : Fields → Option Fields
payload_of fs = fields_of (get_or (get_field "payload" fs) (object end))

-- `if msg_id: await self.send(…)`
abbrev pub ack_if : Listener → Option Json → Traffic → FrameEnd × Traffic
ack_if l none t = (goes_on, t)
ack_if l (some id) t =
    if json_truthy l.number_truthy id then send l (ack_frame id) t else (goes_on, t)

abbrev pub handler_end : HandlerEnd → FrameEnd
handler_end handled = goes_on
handler_end failed = goes_on
handler_end cancelled_in_handler = is_cancelled

-- The handler gets `frame["payload"]`; without that key the error is only logged.
abbrev pub give : Option (Json → HandlerEnd) → Option Json → Traffic → FrameEnd × Traffic
give none payload t = (goes_on, t)
give (some h) none t = (goes_on, t)
give (some h) (some p) t = (handler_end (h p), record t { given = t.given ++ (p ∷ []) })

-- An acknowledgement that raises keeps the message from the handler.
abbrev pub give_after :
    Option (Json → HandlerEnd) → Option Json → FrameEnd × Traffic → FrameEnd × Traffic
give_after h payload (goes_on, t) = give h payload t
give_after h payload (fails, t) = (fails, t)
give_after h payload (is_cancelled, t) = (is_cancelled, t)

abbrev pub receive : Listener → Option Json → Option Fields → Traffic → FrameEnd × Traffic
receive l payload none t = (fails, t)
receive l payload (some ps) t = give_after l.on_message payload (ack_if l (get_field "id" ps) t)

abbrev pub log_error : Option Fields → FrameEnd
log_error none = fails
log_error (some ps) = goes_on

abbrev pub is_text : String → Json → Bool
is_text s null = false
is_text s (boolean b) = false
is_text s (number n) = false
is_text s (str r) = r == s
is_text s (array xs) = false
is_text s (object fs) = false

abbrev pub has_type : String → Fields → Bool
has_type type fs = is_text type (get_or (get_field "type" fs) null)

-- The branches of the `async for`.
unfoldable pub process_fields : Listener → Fields → Traffic → FrameEnd × Traffic
process_fields l fs t =
    if has_type "ping" fs
    then send l pong_frame t
    else (if has_type "message.receive" fs
        then receive l (get_field "payload" fs) (payload_of fs) t
        else (if has_type "message.ack" fs
            then (goes_on, t)
            else (if has_type "error" fs then (log_error (payload_of fs), t) else (goes_on, t))))

abbrev pub process_object : Listener → Option Fields → Traffic → FrameEnd × Traffic
process_object l none t = (fails, t)
process_object l (some fs) t = process_fields l fs t

-- A text that is no JSON raises.
abbrev pub process_raw : Listener → Option Json → Traffic → FrameEnd × Traffic
process_raw l none t = (fails, t)
process_raw l (some frame) t = process_object l (fields_of frame) t
