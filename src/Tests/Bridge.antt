-- ===== src/Tests/Bridge.antt =====
-- A bridge whose gateway answers, and a daemon with two messages.
use claw_msg.Prelude.{◌≡◌, refl, true, false, none, some, List, [], ◌∷◌, ◌++◌, ℕ, ◌+◌, Option}
use claw_msg.Json.{str, array, cons, nil, object, field, end}
use claw_msg.Client.Replies.{Message}
use claw_msg.Client.Calls.{returns, Response}
use claw_msg.Client.Agent.{Host, Link}
use claw_msg.Client.Agent.Methods.{new_agent}
use claw_msg.Client.Connection.Listen.{Attempt, answered, lost}
use claw_msg.Client.Connection.Acks.{message_frame}
use claw_msg.Bridge.{GatewayRequest, BridgeConfig, answer_for, handle, or_unknown}
use claw_msg.Bridge.Answers.{answer_text, direct, handle_lem}
use claw_msg.Daemon.{Webhooks}
use claw_msg.Tests.Connection.{ok_answer, payload}
use claw_msg.Tests.Sdk.{broker}

abbrev gateway : GatewayRequest → ℕ → Option Response × ℕ
gateway r n = (
  some (record {
    status = 200;
    body = object (
        field "choices"
          (array
            (cons (object (field "message" (object (field "content" (str "hi") end)) end)) nil))
          end);
  }),
  n + 1,
)

abbrev config : BridgeConfig
config = record {
  gateway_url = "http://g/";
  gateway_token = "g";
  openclaw_agent_id = "main";
  routing = object end;
  describe = λ e. "error";
  number_truthy = λ s. true;
}

abbrev link : Link
link = record { connected = true; sent = [] }

abbrev bridge_host : Host ℕ
bridge_host = record {
  agent = record (new_agent "http://b" "bridge") { token = some "t2"; connection = some link };
  creds = none;
  outside = 0;
}

abbrev hello : Message
hello = record { id = some "m1"; from_agent = some "b1"; content = "hello"; reply_to = none }

handle_example :
    let (r, v) = answer_for broker gateway config (or_unknown (some "b1")) "hello" bridge_host in
    handle broker gateway config hello bridge_host ≡ (
      returns tt,
      record v {
        agent = record bridge_host.agent {
          connection = some (record link {
            sent = [] ++ (direct (or_unknown (some "b1")) (answer_text config r) ∷ []);
          });
        };
      },
    )
unfolding new_agent
handle_example = handle_lem broker gateway config hello bridge_host link refl refl

abbrev no_posts : Webhooks
no_posts = record { shared_client = false; opened = 0; closed = 0; posted = [] }

abbrev two_messages : List Attempt
two_messages =
    answered (some ok_answer)
      (some (message_frame (payload "m1")) ∷ some (message_frame (payload "m2")) ∷ []) lost
    ∷ []
