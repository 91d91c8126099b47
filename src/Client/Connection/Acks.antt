-- ===== src/Client/Connection/Acks.antt =====
-- The messages that a connection receives (src/claw_msg/client/connection.py).
use claw_msg.Prelude.{
  true, false, ◌≡◌, ◌≢◌, refl, sym, ap, ◌∙◌, Option, none, some, List, [], ◌∷◌, ◌++◌, map, ◌==◌,
  Bool-cases, inl, inr, if◌then◌else◌,
}
use mathlib.Core.List.{append_assoc, append-nil}
use claw_msg.Json.{Json, str, object, Fields, field, end, get_field}
use claw_msg.Client.Connection.{
  Listener, HandlerEnd, handled, failed, cancelled_in_handler, Traffic, ClientFrame, ack_frame,
  goes_on, send_frame, connected, send, json_truthy, ack_if, handler_end, process_fields,
  process_raw,
}
use claw_msg.Client.Connection.Listen.{StreamEnd, run_frames}

-- A `message.receive` frame, as the broker sends it.
abbrev pub message_frame : Fields → Json
message_frame ps = object (field "type" (str "message.receive") (field "payload" (object ps) end))

-- The acknowledgement that a payload asks for.
abbrev ack_of : Listener → Option Json → List ClientFrame
ack_of l none = []
ack_of l (some id) = if json_truthy l.number_truthy id then ack_frame id ∷ [] else []

unfoldable pub acks : Listener → List Fields → List ClientFrame
acks l [] = []
acks l (ps ∷ pss) = ack_of l (get_field "id" ps) ++ acks l pss

send_up :
    (l : Listener) (f : ClientFrame) (t : Traffic)
    → connected (l.socket t) ≡ true
    → l.send_raises f t ≡ false
    → send l f t ≡ (goes_on, send_frame f t)
unfolding send
send_up l f t up sends = rw (up, sends) refl

ack_if_lem :
    (l : Listener) (o : Option Json) (t : Traffic)
    → connected (l.socket t) ≡ true
    → ((f : ClientFrame) → l.send_raises f t ≡ false)
    → ack_if l o t ≡ (goes_on, record t { sent = t.sent ++ ack_of l o })
ack_if_lem l none t up sends =
    ap (λ xs. (goes_on, record t { sent = xs })) (sym (append-nil t.sent))
ack_if_lem l (some id) t up sends = elim (Bool-cases (json_truthy l.number_truthy id)) [
  | inl e ↦ rw e (send_up l (ack_frame id) t up (sends (ack_frame id)))
  | inr e ↦ rw e (ap (λ xs. (goes_on, record t { sent = xs })) (sym (append-nil t.sent)))
]

-- After one message.
abbrev received : Listener → Fields → Traffic → Traffic
received l ps t = record {
  sent = t.sent ++ ack_of l (get_field "id" ps);
  given = t.given ++ (object ps ∷ []);
}

handler_goes_on : (v : HandlerEnd) → v ≢ cancelled_in_handler → handler_end v ≡ goes_on
handler_goes_on handled h = refl
handler_goes_on failed h = refl
handler_goes_on cancelled_in_handler h = absurd (h refl)

one_message :
    (l : Listener) (h : Json → HandlerEnd) (ps : Fields) (t : Traffic)
    → l.on_message ≡ some h
    → h (object ps) ≢ cancelled_in_handler
    → connected (l.socket t) ≡ true
    → ((f : ClientFrame) → l.send_raises f t ≡ false)
    → process_raw l (some (message_frame ps)) t ≡ (goes_on, received l ps t)
unfolding process_fields get_field ◌==◌
one_message l h ps t e k up sends =
    rw (ack_if_lem l (get_field "id" ps) t up sends)
      (rw (e, handler_goes_on (h (object ps)) k) refl)

-- Each message of a stream is acknowledged once, by the id that it names, in the order of the stream,
-- unless that id is missing or counts as false; and each is given once to the handler, in the same
-- order: a handler that raises loses no later message and no acknowledgement. The stream consists of
-- `message.receive` frames whose payload is an object. The handler is there and is not cancelled, the
-- socket stays up, and no sending raises.
pub run_frames_lem :
    (l : Listener) (h : Json → HandlerEnd) (pss : List Fields) (e : StreamEnd) (t : Traffic)
    → l.on_message ≡ some h
    → ((p : Json) → h p ≢ cancelled_in_handler)
    → ((u : Traffic) → connected (l.socket u) ≡ true)
    → ((f : ClientFrame) (u : Traffic) → l.send_raises f u ≡ false)
    → run_frames l (map (λ ps. some (message_frame ps)) pss) e t
      ≡ (e, record { sent = t.sent ++ acks l pss; given = t.given ++ map (λ ps. object ps) pss })
unfolding run_frames acks
run_frames_lem l h [] e t there k up sends =
    λ i. (e, record { sent = sym (append-nil t.sent) i; given = sym (append-nil t.given) i })
run_frames_lem l h (ps ∷ pss) e t there k up sends =
    let ih = run_frames_lem l h pss e (received l ps t) there k up sends in
    rw (one_message l h ps t there (k (object ps)) (up t) (λ f. sends f t)) (
      ih ∙ λ i. (
        e,
        record {
          sent = append_assoc t.sent (ack_of l (get_field "id" ps)) (acks l pss) i;
          given = append_assoc t.given (object ps ∷ []) (map (λ ps'. object ps') pss) i;
        },
      ))
