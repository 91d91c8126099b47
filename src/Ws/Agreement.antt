-- ===== src/Ws/Agreement.antt =====
-- The two ways to send a message (src/claw_msg/server/routes_ws.py and routes_messages.py).
use claw_msg.Prelude.{◌≡◌, refl, String, Option}
use claw_msg.Exec.{
  MsgData, message_receive, message_ack, Socket, Env, World, http, Exec, pure, gets, raise_if,
  ◌>>=◌, ◌>>◌, bind-into,
}
use claw_msg.Messages.{
  MessageSendRequest, no_target, resolve_to, check_rate, check_target, store_message, msg_data_of,
  deliver, store_and_deliver, check_and_send, send_message,
}
use claw_msg.Ws.Frames.{send_text, process_request}

module _ (env : Env) (ws : Socket) (sender : String) (req : MessageSendRequest) where
  abbrev ack_sent : MsgData → Exec (Unit {0})
  ack_sent msg = send_text env ws (message_ack env.uuid)

  abbrev store_and_ack : Option String → Exec (Unit {0})
  store_and_ack to = do
    store_message env sender to req
    msg ← gets (λ w. msg_data_of env sender to req w.db.tables)
    deliver env env.uuid (message_receive msg) sender to req.room_id
    send_text env ws (message_ack env.uuid)

  abbrev check_and_ack : Option String → Exec (Unit {0})
  check_and_ack to = do check_rate env sender; check_target sender to req.room_id; store_and_ack to

  abbrev acked_delivery : Option String → MsgData → Exec (Unit {0})
  acked_delivery to msg =
      deliver env env.uuid (message_receive msg) sender to req.room_id >> ack_sent msg

  abbrev delivery : Option String → MsgData → Exec MsgData
  delivery to msg = deliver env env.uuid (message_receive msg) sender to req.room_id >> pure msg

  abbrev read_back : Option String → Exec MsgData
  read_back to = gets (λ w. msg_data_of env sender to req w.db.tables)

  stored :
      (to : Option String) (w : World)
      → store_and_ack to w ≡ (store_and_deliver env req sender to >>= ack_sent) w
  stored to w =
      bind-into (store_message env sender to req) (λ _. read_back to >>= delivery to) ack_sent
        (λ _. read_back to >>= acked_delivery to) w
        (λ _ v. bind-into (read_back to) (delivery to) ack_sent (acked_delivery to) v (λ msg u.
          bind-into (deliver env env.uuid (message_receive msg) sender to req.room_id)
            (λ _. pure msg) ack_sent (λ _. ack_sent msg) u (λ _ x. refl)))

  checked :
      (to : Option String) (w : World)
      → check_and_ack to w ≡ (check_and_send env req sender to >>= ack_sent) w
  checked to w =
      bind-into (check_rate env sender)
        (λ _. check_target sender to req.room_id >> store_and_deliver env req sender to) ack_sent
        (λ _. check_target sender to req.room_id >> store_and_ack to) w
        (λ _ v.
          bind-into (check_target sender to req.room_id) (λ _. store_and_deliver env req sender to)
            ack_sent (λ _. store_and_ack to) v (λ _ u. stored to u))

-- A `message.send` frame, once validated, does what `POST /messages/` does with the same request,
-- and then acknowledges the message to the socket: the two have one result and leave one state, an
-- error at any check included.
pub process_request_lem :
    (env : Env) (ws : Socket) (sender : String) (req : MessageSendRequest) (w : World)
    → process_request env ws sender req w
      ≡ (send_message env req sender >>= λ msg. send_text env ws (message_ack env.uuid)) w
unfolding process_request send_message
process_request_lem env ws sender req w =
    bind-into (raise_if (no_target req) (http 400 "Must specify 'to' or 'room_id'"))
      (λ _. resolve_to req.to >>= check_and_send env req sender) (ack_sent env ws sender req)
      (λ _. resolve_to req.to >>= check_and_ack env ws sender req) w
      (λ _ v.
        bind-into (resolve_to req.to) (check_and_send env req sender) (ack_sent env ws sender req)
          (check_and_ack env ws sender req) v (λ to u. checked env ws sender req to u))
