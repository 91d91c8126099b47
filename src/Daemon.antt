-- ===== src/Daemon.antt =====
-- src/claw_msg/daemon/runner.py and webhook.py: a connection that posts every message to a URL.
-- What answers the posts is a parameter.
pub mod Service
pub mod Forwarding
use claw_msg.Prelude.{
  ℕ, ◌+◌, String, Bool, true, false, Option, none, some, List, [], ◌∷◌, ◌++◌, ltb,
}
use claw_msg.Json.{Json}
use claw_msg.Client.Connection.{Listener, HandlerEnd, handled, Traffic}
use claw_msg.Client.Connection.Listen.{StreamEnd, Attempt, Delays, Loop, listen}

-- The module's `_shared_client`, which is there or not, and the clients that were made and closed.
-- What is posted stands in `posted`, in order.
pub record Webhooks : Type 0 where
  pub shared_client : Bool
  pub opened : ℕ
  pub closed : ℕ
  pub posted : List (String × Json)

-- The status that a post is answered with, or none when it raises.
abbrev pub Endpoint : Type 0
Endpoint = String → Json → Option ℕ

abbrev make_client : Bool → Webhooks → Webhooks
make_client true s = s
make_client false s = record s { shared_client = true; opened = s.opened + 1 }

unfoldable pub get_shared_client : Webhooks → Webhooks
get_shared_client s = make_client s.shared_client s

abbrev close_client : Bool → Webhooks → Webhooks
close_client false s = s
close_client true s = record s { shared_client = false; closed = s.closed + 1 }

unfoldable pub close_webhook_client : Webhooks → Webhooks
close_webhook_client s = close_client s.shared_client s

abbrev pub is_success : Option ℕ → Bool
is_success none = false
is_success (some status) = ltb status 400

unfoldable pub deliver_webhook : Endpoint → String → Json → Webhooks → Bool × Webhooks
deliver_webhook endpoint url payload s =
    let s' = get_shared_client s in
    (is_success (endpoint url payload), record s' { posted = s'.posted ++ ((url, payload) ∷ []) })

-- `on_message` logs a failed delivery and goes on.
unfoldable pub deliver_all : Endpoint → String → List Json → Webhooks → Webhooks
deliver_all endpoint url [] s = s
deliver_all endpoint url (payload ∷ payloads) s =
    deliver_all endpoint url payloads (deliver_webhook endpoint url payload s).1

-- `Connection(broker_url, token, on_message=on_message)`: its handler never raises. The rest of the
-- listener is not the daemon's.
abbrev pub daemon_listener : Listener → Listener
daemon_listener l = record l { on_message = some (λ payload. handled) }

-- `run_daemon`: whatever ends the loop, the client is closed.
unfoldable pub run_daemon :
    Delays → Listener → String → Endpoint → String → List Attempt → Webhooks → Loop × Webhooks
run_daemon d l token endpoint url script s =
    let loop = listen d (daemon_listener l) token none script (record { sent = []; given = [] }) in
    (loop, close_webhook_client (deliver_all endpoint url loop.traffic.given s))
