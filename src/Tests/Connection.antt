-- ===== src/Tests/Connection.antt =====
-- A connection that is refused twice, then logs in, and a stream of two messages.
use claw_msg.Prelude.{
  ◌==◌, ◌≡◌, ◌≢◌, refl, arith, true, false, none, some, List, [], ◌∷◌, ◌++◌, map, All, String,
}
use claw_msg.Json.{Json, str, object, field, end, Fields, get_field}
use claw_msg.Client.Connection.{Listener, failed, cancelled_in_handler, Traffic, connected}
use claw_msg.Credentials.{normalize_broker_url}
use claw_msg.Client.Connection.Socket.{ws_url, replace}
use claw_msg.Client.Connection.Listen.{
  Attempt, refused, answered, lost, Delays, listen, listen_loop, pause, login_id, run_frames,
}
use claw_msg.Client.Connection.Backoff.{pauses, logs_in, InRange, listen-pauses}
use claw_msg.Client.Connection.Acks.{message_frame, acks, run_frames_lem}

abbrev pub listener : Listener
listener = record {
  on_message = some (λ p. failed);
  number_truthy = λ s. true;
  socket = λ t. some (record { closed = some false; close_code = none });
  send_raises = λ f t. false;
}

stays_up : (t : Traffic) → connected (listener.socket t) ≡ true
unfolding connected
stays_up t = refl

abbrev pub delays : Delays
delays = record { reconnect_delay = 2000; max_reconnect_delay = 60000 }

abbrev quiet : Traffic
quiet = record { sent = []; given = [] }

abbrev pub ok_answer : Json
ok_answer =
    object (
      field "type" (str "auth.ok") (field "payload" (object (field "agent_id" (str "a1") end)) end))

abbrev script : List Attempt
script = refused ∷ refused ∷ answered (some ok_answer) [] lost ∷ refused ∷ []

listen-pauses_example :
    ((listen delays listener "t" none script quiet).slept ≡ pauses delays 0 (map logs_in script))
    × All (InRange delays) (listen delays listener "t" none script quiet).slept
unfolding listen listen_loop pause login_id run_frames get_field ◌==◌
listen-pauses_example = listen-pauses delays listener "t" script quiet (omega arith) refl

abbrev pub payload : String → Fields
payload id = field "id" (str id) (field "content" (str "hello") end)

handler_goes_on : (p : Json) → failed ≢ cancelled_in_handler
handler_goes_on p h = cc

run_frames_example :
    run_frames listener
      (map (λ ps. some (message_frame ps)) (payload "m1" ∷ payload "m2" ∷ []))
      lost
      quiet
    ≡ (
      lost,
      record {
        sent = [] ++ acks listener (payload "m1" ∷ payload "m2" ∷ []);
        given = [] ++ map (λ ps. object ps) (payload "m1" ∷ payload "m2" ∷ []);
      },
    )
run_frames_example =
    run_frames_lem listener (λ p. failed) (payload "m1" ∷ payload "m2" ∷ []) lost quiet refl
      handler_goes_on stays_up (λ f t. refl)

-- On a connection that is down the acknowledgement is dropped and the message still handled.
down_drops :
    run_frames
      (record listener { socket = λ t. none })
      (some (message_frame (payload "m1")) ∷ [])
      lost
      quiet
    ≡ (lost, record { sent = []; given = object (payload "m1") ∷ [] })
unfolding run_frames claw_msg.Client.Connection.process_fields claw_msg.Client.Connection.send
    claw_msg.Client.Connection.json_truthy connected get_field ◌==◌
down_drops = refl

-- A sending that raises ends the stream before the message is handled.
raising_ends :
    run_frames
      (record listener { send_raises = λ f t. true })
      (some (message_frame (payload "m1")) ∷ some (message_frame (payload "m2")) ∷ [])
      lost
      quiet
    ≡ (lost, quiet)
unfolding run_frames claw_msg.Client.Connection.process_fields claw_msg.Client.Connection.send
    claw_msg.Client.Connection.json_truthy connected get_field ◌==◌
raising_ends = refl

ws_url_plain : ws_url "http://localhost:8000/" ≡ "ws://localhost:8000/ws"
unfolding ws_url replace normalize_broker_url ◌==◌
ws_url_plain = refl
