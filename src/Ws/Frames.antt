-- ===== src/Ws/Frames.antt =====
-- The frames that a connected agent sends (src/claw_msg/server/routes_ws.py).
use Prim.Native.String.{len, ◌++◌ as ◌<>◌}
use claw_msg.Prelude.{
  ℕ, String, Bool, true, false, Option, none, some, List, [], ◌∷◌, ◌++◌, ◌==◌, ltb, str_truthy,
  if◌then◌else◌,
}
use claw_msg.Json.{
  Json, null, boolean, number, str, array, object, nil, cons, Fields, end, field, get_field, get_or,
}
use claw_msg.Exec.{
  Frame, message_receive, message_ack, pong, error, Socket, Env, http, integrity_error, send_failed,
  attribute_error, bind_error, validation_error, Result, ok, raised, Exec, pure, raise, gets,
  raise_if, modify_db, ◌>>=◌, ◌>>◌,
}
use claw_msg.OfflineQueue.{mark_acked}
use claw_msg.Messages.{
  MessageSendRequest, no_target, resolve_to, check_rate, check_target, store_message, msg_data_of,
  deliver,
}

-- What `model_validate` answers: the request, or the places of the errors.
pub data Validation : Type 0 where
  valid : MessageSendRequest → Validation
  invalid : List (List String) → Validation

-- What SQLite is given for an acknowledged id: nothing, where Python's `if` takes it for false; the
-- text that a TEXT column compares with; or an error.
pub data Bound : Type 0 where
  falsy : Bound
  text : String → Bound
  unbindable : Bound

-- `json.loads` (`none` is a `JSONDecodeError`), `MessageSendRequest.model_validate`, and `str()` of
-- what `frame.get("type")` returns; and what a JSON number, by its text, is bound as.
pub record Parsers : Type 0 where
  pub loads : String → Option Json
  pub model_validate : Json → Validation
  pub show : Option Json → String
  pub bind_number : String → Bound

abbrev pub max_ws_frame_size_bytes : ℕ
max_ws_frame_size_bytes = 65536

-- `ws.send_text`
unfoldable pub send_text : Env → Socket → Frame → Exec (Unit {0})
send_text env ws f w =
    if env.alive ws
    then (ok tt, record w { wire = w.wire ++ (ws, f) ∷ [] })
    else (raised send_failed, w)

-- `_send_error`
abbrev pub send_error : Env → Socket → ℕ → String → Exec (Unit {0})
send_error env ws code detail = send_text env ws (error code detail)

abbrev pub is_content : List String → Bool
is_content [] = false
is_content (s ∷ []) = s == "content"
is_content (s ∷ t ∷ loc) = false

-- `_validation_error_detail`
unfoldable pub validation_error_detail : List (List String) → String
validation_error_detail [] = "Invalid message payload"
validation_error_detail (loc ∷ locs) =
    if is_content loc
    then "Message content exceeds 32768 characters"
    else validation_error_detail locs

-- An error of the checks is sent as a frame; the handler then returns.
abbrev pub send_http_error : Env → Socket → Result (Unit {0}) → Exec (Unit {0})
send_http_error env ws (ok u) = pure tt
send_http_error env ws (raised (http code detail)) = send_error env ws code detail
send_http_error env ws (raised integrity_error) = raise integrity_error
send_http_error env ws (raised send_failed) = raise send_failed
send_http_error env ws (raised attribute_error) = raise attribute_error
send_http_error env ws (raised bind_error) = raise bind_error
send_http_error env ws (raised validation_error) = raise validation_error

-- The handler after validation: where it sends an error and returns, this raises the error.
unfoldable pub process_request : Env → Socket → String → MessageSendRequest → Exec (Unit {0})
process_request env ws sender req = do
  raise_if (no_target req) (http 400 "Must specify 'to' or 'room_id'")
  to ← resolve_to req.to
  check_rate env sender
  check_target sender to req.room_id
  store_message env sender to req
  msg ← gets (λ w. msg_data_of env sender to req w.db.tables)
  deliver env env.uuid (message_receive msg) sender to req.room_id
  send_text env ws (message_ack env.uuid)

abbrev pub handle_valid : Env → Socket → String → Validation → Exec (Unit {0})
handle_valid env ws sender (invalid locs) w = send_error env ws 422 (validation_error_detail locs) w
handle_valid env ws sender (valid req) w =
    let (r, w') = process_request env ws sender req w in send_http_error env ws r w'

-- `_handle_message_send`
unfoldable pub handle_message_send : Parsers → Env → Socket → String → Json → Exec (Unit {0})
handle_message_send p env ws sender payload = handle_valid env ws sender (p.model_validate payload)

-- `if msg_id: await mark_acked(…)`
abbrev pub ack_bound : String → Bound → Exec (Unit {0})
ack_bound agent falsy = pure tt
ack_bound agent (text s) = modify_db (mark_acked s agent)
ack_bound agent unbindable = raise bind_error

abbrev pub bound_of : Parsers → Option Json → Bound
bound_of p none = falsy
bound_of p (some null) = falsy
bound_of p (some (boolean true)) = text "1"
bound_of p (some (boolean false)) = falsy
bound_of p (some (number n)) = p.bind_number n
bound_of p (some (str s)) = if str_truthy s then text s else falsy
bound_of p (some (array nil)) = falsy
bound_of p (some (array (cons x xs))) = unbindable
bound_of p (some (object end)) = falsy
bound_of p (some (object (field k v fs))) = unbindable

-- `frame.get("payload", {}).get("message_id")`
abbrev pub ack_payload : Parsers → String → Json → Exec (Unit {0})
ack_payload p agent (object fs) = ack_bound agent (bound_of p (get_field "message_id" fs))
ack_payload p agent null = raise attribute_error
ack_payload p agent (boolean b) = raise attribute_error
ack_payload p agent (number n) = raise attribute_error
ack_payload p agent (str s) = raise attribute_error
ack_payload p agent (array xs) = raise attribute_error

abbrev pub is_type : String → Option Json → Bool
is_type s (some (str t)) = t == s
is_type s (some null) = false
is_type s (some (boolean b)) = false
is_type s (some (number n)) = false
is_type s (some (array xs)) = false
is_type s (some (object fs)) = false
is_type s none = false

-- The branches on `frame_type`.
unfoldable pub handle_fields : Parsers → Env → Socket → String → Fields → Exec (Unit {0})
handle_fields p env ws agent fs =
    let frame_type = get_field "type" fs in
    let payload = get_or (get_field "payload" fs) (object end) in
    if is_type "pong" frame_type
    then pure tt
    else (if is_type "ping" frame_type
        then send_text env ws pong
        else (if is_type "message.send" frame_type
            then handle_message_send p env ws agent payload
            else (if is_type "message.ack" frame_type
                then ack_payload p agent payload
                else send_error env ws 400 ("Unknown frame type: " <> p.show frame_type))))

abbrev pub handle_json : Parsers → Env → Socket → String → Option Json → Exec (Unit {0})
handle_json p env ws agent none = send_error env ws 400 "Invalid JSON"
handle_json p env ws agent (some (object fs)) = handle_fields p env ws agent fs
handle_json p env ws agent (some null) = raise attribute_error
handle_json p env ws agent (some (boolean b)) = raise attribute_error
handle_json p env ws agent (some (number n)) = raise attribute_error
handle_json p env ws agent (some (str s)) = raise attribute_error
handle_json p env ws agent (some (array xs)) = raise attribute_error

-- One text frame of the message loop.
unfoldable pub handle_text : Parsers → Env → Socket → String → String → Exec (Unit {0})
handle_text p env ws agent raw =
    if ltb max_ws_frame_size_bytes (len raw)
    then send_error env ws 413 "Frame exceeds 65536 bytes"
    else handle_json p env ws agent (p.loads raw)
