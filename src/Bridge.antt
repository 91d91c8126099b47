-- ===== src/Bridge.antt =====
-- src/claw_msg/bridge.py: an agent that hands every message to a local OpenClaw gateway and sends back
-- what that answers. The gateway and the files are parameters.
pub mod Answers
use Prim.Native.String.{◌++◌}
use claw_msg.Prelude.{
  String, Bool, true, false, Option, none, some, List, [], ◌∷◌, str_truthy, truthy, if◌then◌else◌,
}
use claw_msg.Prelude.Dict.{Dict, put}
use claw_msg.Json.{
  Json, null, boolean, number, str, array, object, nil, cons, Fields, end, get_field, get_or,
}
use claw_msg.Credentials.{normalize_broker_url}
use claw_msg.Client.Replies.{Message}
use claw_msg.Client.Http.{authorization_of}
use claw_msg.Client.Calls.{
  ClientError, type_error, value_error, Outcome, returns, raises, Response, Call, done, fail, ◌>>=◌,
  ◌>>◌, json_of,
}
use claw_msg.Client.Agent.{Host, register}
use claw_msg.Client.Agent.Methods.{send}
use claw_msg.Client.Calls.{Transport}
use claw_msg.Client.Connection.{fields_of, json_truthy}

-- `path.exists()` and `json.load`: no file, a text that is no JSON, or a value.
abbrev pub Files : Type 0
Files = String → Option (Option Json)

abbrev routing_in : Option (Option Json) → Outcome Json
routing_in none = returns (object end)
routing_in (some none) = raises (value_error "not JSON")
routing_in (some (some j)) = returns j

unfoldable pub load_routing : Files → Option String → Outcome Json
load_routing files none = returns (object end)
load_routing files (some path) =
    if truthy (some path) then routing_in (files path) else returns (object end)

-- `routes.get(sender, routing.get("default", fallback))`
abbrev route : String → String → Fields → Option Fields → Outcome Json
route sender fallback routing none = raises type_error
route sender fallback routing (some routes) =
    returns (get_or (get_field sender routes) (get_or (get_field "default" routing) (str fallback)))

abbrev route_in : String → String → Option Fields → Outcome Json
route_in sender fallback none = raises type_error
route_in sender fallback (some routing) =
    route sender fallback routing (fields_of (get_or (get_field "routes" routing) (object end)))

unfoldable pub resolve_agent : Json → String → String → Outcome Json
resolve_agent routing sender fallback = route_in sender fallback (fields_of routing)

abbrev text_value : Json → Outcome String
text_value null = raises type_error
text_value (boolean b) = raises type_error
text_value (number n) = raises type_error
text_value (str s) = returns s
text_value (array xs) = raises type_error
text_value (object fs) = raises type_error

-- A route as a header: a value without truth, such as a null, is left out, as "" is; another value
-- that is no text is refused as a header by httpx.
abbrev pub header_value : (String → Bool) → Json → Outcome String
header_value number_truthy j = if json_truthy number_truthy j then text_value j else returns ""

-- The request to the gateway.
pub record GatewayRequest : Type 0 where
  pub url : String
  pub headers : Dict String
  pub model : String
  pub content : String

-- `if x: headers[key] = value`
abbrev put_header : Bool → String → String → Dict String → Dict String
put_header true key value headers = put headers key value
put_header false key value headers = headers

abbrev pub or_main : String → String
or_main s = if str_truthy s then s else "main"

unfoldable pub gateway_request : String → String → String → String → String → GatewayRequest
gateway_request gateway_url gateway_token openclaw_agent_id message sender_id = record {
  url = normalize_broker_url gateway_url ++ "/v1/chat/completions";
  headers = put_header (str_truthy sender_id) "x-openclaw-session-key" ("claw-msg:" ++ sender_id) (
      put_header (str_truthy openclaw_agent_id) "x-openclaw-agent-id" openclaw_agent_id (
        ("Authorization", authorization_of gateway_token)
        ∷ ("Content-Type", "application/json")
        ∷ []));
  model = "openclaw:" ++ or_main openclaw_agent_id;
  content = message;
}

-- `choices[0].get("message", {}).get("content", "")`, of which `handle` takes a slice: a content that
-- has none raises there. A list has one and would be sent on; it counts as one that has none.
abbrev content_in : Option Fields → Outcome String
content_in none = raises type_error
content_in (some message) = text_value (get_or (get_field "content" message) (str ""))

abbrev message_in : Option Fields → Outcome String
message_in none = raises type_error
message_in (some choice) = content_in (fields_of (get_or (get_field "message" choice) (object end)))

-- A value without truth answers nothing; `[0]` of an object, a number or `true`, or `.get` of a text
-- raises.
abbrev first_choice : (String → Bool) → Json → Outcome String
first_choice number_truthy null = returns "(no response)"
first_choice number_truthy (boolean false) = returns "(no response)"
first_choice number_truthy (boolean true) = raises type_error
first_choice number_truthy (number n) =
    if number_truthy n then raises type_error else returns "(no response)"
first_choice number_truthy (str s) =
    if str_truthy s then raises type_error else returns "(no response)"
first_choice number_truthy (array nil) = returns "(no response)"
first_choice number_truthy (array (cons choice more)) = message_in (fields_of choice)
first_choice number_truthy (object end) = returns "(no response)"
first_choice number_truthy (object (Fields.field k v fs)) = raises type_error

abbrev answer_in : (String → Bool) → Option Fields → Outcome String
answer_in number_truthy none = raises type_error
answer_in number_truthy (some data_) =
    first_choice number_truthy (get_or (get_field "choices" data_) (array nil))

abbrev answer_of : (String → Bool) → Outcome Json → Outcome String
answer_of number_truthy (returns j) = answer_in number_truthy (fields_of j)
answer_of number_truthy (raises e) = raises e

-- `try: … except Exception as e: …`
abbrev pub or_handle : {W A : Type 0} → Outcome A → (ClientError → Call W A) → Call W A
or_handle (returns a) h w = (returns a, w)
or_handle (raises e) h w = h e w

abbrev pub caught : {W A : Type 0} → Call W A → (ClientError → Call W A) → Call W A
caught m h w = let (r, w') = m w in or_handle r h w'

-- The settings of a bridge, the text of an exception, and the truth of a JSON number.
pub record BridgeConfig : Type 0 where
  pub gateway_url : String
  pub gateway_token : String
  pub openclaw_agent_id : String
  pub routing : Json
  pub describe : ClientError → String
  pub number_truthy : String → Bool

abbrev pub or_unknown : Option String → String
or_unknown none = "unknown"
or_unknown (some s) = s

module _ {S : Type 0} (broker : Transport S) (gateway : GatewayRequest → S → Option Response × S)
    (config : BridgeConfig) where
  -- The request, and what is read of its answer.
  unfoldable pub ask_gateway : String → String → String → Call (Host S) String
  ask_gateway target message sender w =
      let (o, s) =
        gateway (gateway_request config.gateway_url config.gateway_token target message sender)
          w.outside in
      (answer_of config.number_truthy (json_of o), record w { outside = s })

  unfoldable pub call_openclaw : Json → String → String → Call (Host S) String
  call_openclaw target message sender =
      (λ w. (header_value config.number_truthy target, w)) >>= λ name.
      ask_gateway name message sender

  -- The body of the `try`, up to the answer.
  unfoldable pub answer_for : String → String → Call (Host S) String
  answer_for sender content =
      (λ w. (resolve_agent config.routing sender config.openclaw_agent_id, w)) >>= λ target.
      call_openclaw target content sender

  abbrev pub answer_with : String → String → Call (Host S) (Unit {0})
  answer_with sender text = send broker sender text "text/plain" none >>= λ reply. done tt

  -- `handle`
  unfoldable pub handle : Message → Call (Host S) (Unit {0})
  handle msg =
      let sender = or_unknown msg.from_agent in
      caught (answer_for sender msg.content >>= λ response. answer_with sender response)
        (λ e. answer_with sender ("[bridge error] " ++ config.describe e))

-- `run_bridge` up to the loop: with a token the agent does not register.
unfoldable pub start_bridge : {S : Type 0} → Transport S → Option String → Call (Host S) (Unit {0})
start_bridge broker token = if truthy token then done tt else register broker none >>= λ id. done tt
