-- ===== src/Bridge/Answers.antt =====
-- Every message is answered (src/claw_msg/bridge.py).
use Prim.Native.String.{◌++◌ as append}
use claw_msg.Prelude.{◌≡◌, refl, sym, ap, ◌∙◌, String, true, Option, none, some, [], ◌∷◌, ◌++◌}
use claw_msg.Json.{Json}
use claw_msg.Client.Replies.{Message}
use claw_msg.Client.Http.{Sending}
use claw_msg.Client.Calls.{Outcome, returns, raises, Response, Transport, proceed}
use claw_msg.Client.Agent.{AgentState, Host, Link}
use claw_msg.Client.Agent.Methods.{send, send_either}
use claw_msg.Bridge.{
  GatewayRequest, BridgeConfig, resolve_agent, header_value, ask_gateway, call_openclaw, answer_for,
  answer_with, or_unknown, or_handle, handle,
}

-- What goes back to the sender.
abbrev pub answer_text : BridgeConfig → Outcome String → String
answer_text config (returns response) = response
answer_text config (raises e) = append "[bridge error] " (config.describe e)

abbrev pub direct : String → String → Sending
direct to content = record {
  to = some to;
  room_id = none;
  content = content;
  content_type = "text/plain";
  reply_to = none;
}

module _ {S : Type 0} (broker : Transport S) (gateway : GatewayRequest → S → Option Response × S)
    (config : BridgeConfig) where
  -- The answer is made without touching the agent.
  answer_for_agent :
      (sender content : String) (w : Host S)
      → (answer_for broker gateway config sender content w).1.agent ≡ w.agent
  unfolding answer_for call_openclaw ask_gateway
  answer_for_agent sender content w =
      on_target (resolve_agent config.routing sender config.openclaw_agent_id)
    where
      on_name :
          (r : Outcome String)
          → (proceed r (λ name. ask_gateway broker gateway config name content sender) w).1.agent
            ≡ w.agent
      on_name (returns name) = refl
      on_name (raises e) = refl

      on_target :
          (r : Outcome Json)
          → (proceed r
              (λ target. call_openclaw broker gateway config target content sender)
              w).1.agent
            ≡ w.agent
      on_target (returns target) = on_name (header_value config.number_truthy target)
      on_target (raises e) = refl

  -- Over a connection that is up a text is one more frame.
  answer_with_lem :
      (to text : String) (w : Host S) (l : Link)
      → w.agent.connection ≡ some l
      → l.connected ≡ true
      → answer_with broker gateway config to text w ≡ (
        returns tt,
        record w {
          agent = record w.agent {
            connection = some (record l { sent = l.sent ++ (direct to text ∷ []) });
          };
        },
      )
  unfolding send send_either
  answer_with_lem to text w l h up = rw (h, up) refl

  -- After the call of the gateway.
  after_answer :
      (to : String) (r : Outcome String) (v : Host S) (l : Link)
      → v.agent.connection ≡ some l
      → l.connected ≡ true
      → (let (o, v') = proceed r (λ text. answer_with broker gateway config to text) v in
          or_handle o
            (λ e.
              answer_with broker gateway config to (append "[bridge error] " (config.describe e)))
            v')
        ≡ answer_with broker gateway config to (answer_text config r) v
  after_answer to (returns text) v l h up =
      let e = answer_with_lem to text v l h up in
      ap
        (λ (p : Outcome (Unit {0}) × Host S).
          or_handle p.0
            (λ e.
              answer_with broker gateway config to (append "[bridge error] " (config.describe e)))
            p.1)
        e
      ∙ sym e
  after_answer to (raises e) v l h up = refl

-- A bridge whose connection is up sends exactly one frame for each message that it handles,
-- whatever the gateway does: the gateway's answer, or the text of the error, to the sender of the
-- message.
pub handle_lem :
    {S : Type 0} (broker : Transport S) (gateway : GatewayRequest → S → Option Response × S)
    (config : BridgeConfig) (msg : Message) (w : Host S) (l : Link)
    → w.agent.connection ≡ some l
    → l.connected ≡ true
    → let to = or_unknown msg.from_agent in
      let (r, v) = answer_for broker gateway config to msg.content w in
      handle broker gateway config msg w ≡ (
        returns tt,
        record v {
          agent = record w.agent {
            connection =
                some (record l { sent = l.sent ++ (direct to (answer_text config r) ∷ []) });
          };
        },
      )
unfolding handle
handle_lem broker gateway config msg w l h up =
    let to = or_unknown msg.from_agent in
    let (r, v) = answer_for broker gateway config to msg.content w in
    let kept = answer_for_agent broker gateway config to msg.content w in
    let there : v.agent.connection ≡ some l = ap (λ a. a.connection) kept ∙ h in
    after_answer broker gateway config to r v l there up
    ∙ answer_with_lem broker gateway config to (answer_text config r) v l there up
    ∙ ap
        (λ (a : AgentState). (
          returns tt,
          (record v {
            agent = record a {
              connection =
                  some (record l { sent = l.sent ++ (direct to (answer_text config r) ∷ []) });
            };
          }),
        ))
        kept
