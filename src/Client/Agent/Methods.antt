-- ===== src/Client/Agent/Methods.antt =====
-- The methods of `Agent` (src/claw_msg/client/agent.py): what they send, and what they keep of the
-- reply.
use claw_msg.Prelude.{
  String, Bool, false, ◌&&◌, Option, none, some, [], ◌∷◌, ◌++◌, truthy, if◌then◌else◌,
}
use claw_msg.Prelude.Int.{ℤ}
use claw_msg.Json.{Json, object, end}
use claw_msg.Credentials.{Credentials, CredsFile, normalize_broker_url, find_credentials}
use claw_msg.Client.Replies.{Message}
use claw_msg.Client.Http.{
  Sending, ContactAdd, http_client, send_message_request, get_messages_request, get_profile_request,
  search_agents_request, create_room_request, list_rooms_request, join_room_request,
  leave_room_request, add_contact_request, update_contact_request, list_contacts_request,
  remove_contact_request,
}
use claw_msg.Client.Calls.{
  http_status_error, request_error, type_error, runtime_error, value_error, key_error, Outcome,
  returns, raises, Transport, Call, done, fail, ◌>>=◌,
}
use claw_msg.Client.Agent.{AgentState, Host, Link, modify_agent, register, with_reauth, http_call}

-- `__init__`, with its default arguments.
unfoldable pub new_agent : String → String → AgentState
new_agent broker_url name = record {
  broker_url = normalize_broker_url broker_url;
  name = name;
  owner = none;
  capabilities = [];
  metadata = object end;
  dm_policy = "contacts_only";
  is_application = false;
  token = none;
  agent_id = none;
  connection = none;
  http = none;
}

-- `connected`
abbrev pub is_connected : Option Link → Bool
is_connected none = false
is_connected (some l) = l.connected

-- `Connection.send_message`
abbrev pub put_frame : Sending → Option Link → Option Link
put_frame m none = none
put_frame m (some l) = some (record l { sent = l.sent ++ (m ∷ []) })

module _ {S : Type 0} (broker : Transport S) where
  -- Over the WebSocket if it is there, with no reply to return; over HTTP otherwise.
  unfoldable pub send_either : Sending → Call (Host S) (Option Json)
  send_either m w =
      if is_connected w.agent.connection
      then (
        returns none,
        record w { agent = record w.agent { connection = put_frame m w.agent.connection } },
      )
      else (with_reauth broker (http_call broker (λ c. send_message_request c m)) >>= λ j.
            done (some j))
          w

  unfoldable pub send : String → String → String → Option String → Call (Host S) (Option Json)
  send to content content_type reply_to = send_either (record {
    to = some to;
    room_id = none;
    content = content;
    content_type = content_type;
    reply_to = reply_to;
  })

  unfoldable pub send_to_room : String → String → String → Call (Host S) (Option Json)
  send_to_room room_id content content_type = send_either (record {
    to = none;
    room_id = some room_id;
    content = content;
    content_type = content_type;
    reply_to = none;
  })

  abbrev no_reply : Call (Host S) (Option Json)
  no_reply = fail (value_error "Reply requires an incoming message with 'id' and 'from_agent'")

  abbrev pub reply_to_named :
      Option String → Option String → String → String → Call (Host S) (Option Json)
  reply_to_named none sender content content_type = no_reply
  reply_to_named (some id) none content content_type = no_reply
  reply_to_named (some id) (some sender) content content_type =
      if truthy (some id) && truthy (some sender)
      then send sender content content_type (some id)
      else no_reply

  unfoldable pub reply : Message → String → String → Call (Host S) (Option Json)
  reply message content content_type =
      reply_to_named message.id message.from_agent content content_type

  -- The call whose reply `ask` waits for.
  unfoldable pub ask_sends : String → String → String → Call (Host S) Json
  ask_sends to content content_type = with_reauth broker (
      http_call broker (λ c. send_message_request c (record {
        to = some to;
        room_id = none;
        content = content;
        content_type = content_type;
        reply_to = none;
      })))

  unfoldable pub get_messages : Option String → ℤ → Option String → Call (Host S) Json
  get_messages since limit peer =
      with_reauth broker (http_call broker (λ c. get_messages_request c since limit peer))

  unfoldable pub search_agents : Option String → Option String → Call (Host S) Json
  search_agents name capability =
      with_reauth broker (http_call broker (λ c. search_agents_request c name capability))

  unfoldable pub get_profile : Call (Host S) Json
  get_profile = with_reauth broker (http_call broker (λ c. get_profile_request c))

  unfoldable pub create_room : String → String → ℤ → Call (Host S) Json
  create_room name description max_members =
      with_reauth broker
        (http_call broker (λ c. create_room_request c name description max_members))

  unfoldable pub list_rooms : Call (Host S) Json
  list_rooms = with_reauth broker (http_call broker (λ c. list_rooms_request c))

  unfoldable pub join_room : String → Call (Host S) Json
  join_room room_id = with_reauth broker (http_call broker (λ c. join_room_request c room_id))

  unfoldable pub leave_room : String → Call (Host S) Json
  leave_room room_id = with_reauth broker (http_call broker (λ c. leave_room_request c room_id))

  unfoldable pub add_contact : ContactAdd → Call (Host S) Json
  add_contact a = with_reauth broker (http_call broker (λ c. add_contact_request c a))

  unfoldable pub alias_contact : String → String → Call (Host S) Json
  alias_contact peer_id alias =
      with_reauth broker
        (http_call broker (λ c. update_contact_request c peer_id (some alias) none none none))

  unfoldable pub list_contacts : Call (Host S) Json
  list_contacts = with_reauth broker (http_call broker (λ c. list_contacts_request c))

  unfoldable pub remove_contact : String → Call (Host S) (Unit {0})
  remove_contact peer_id =
      with_reauth broker (http_call broker (λ c. remove_contact_request c peer_id)) >>= λ j. done tt

  -- `close`
  unfoldable pub close : Call (Host S) (Unit {0})
  close = modify_agent (λ a. record a { connection = none; http = none })

-- `from_credentials`: the agent that the file of the host holds under this name.
abbrev pub name_or : Option String → String → String
name_or none name = name
name_or (some n) name = if truthy (some n) then n else name

abbrev pub with_identity : Option String → Option String → AgentState → Outcome AgentState
with_identity none id a = raises key_error
with_identity (some t) none a = raises key_error
with_identity (some t) (some id) a =
    returns
      (record a { token = some t; agent_id = some id; http = some (http_client a.broker_url t) })

abbrev pub from_found : String → String → Option Credentials → Outcome AgentState
from_found broker_url name none = raises (value_error "No saved credentials found")
from_found broker_url name (some c) =
    with_identity c.token c.agent_id (new_agent broker_url (name_or c.name name))

unfoldable pub from_credentials : String → String → CredsFile → Outcome AgentState
from_credentials broker_url name file =
    from_found broker_url name (find_credentials broker_url name file)

-- `metadata or {}`
abbrev pub meta_or_empty : Option Json → Json
meta_or_empty none = object end
meta_or_empty (some j) = j

-- The agent of a host after a call.
abbrev pub agent_after : {S A : Type 0} → Outcome A × Host S → Outcome AgentState × (CredsFile × S)
agent_after (returns x, w) = (returns w.agent, (w.creds, w.outside))
agent_after (raises e, w) = (raises e, (w.creds, w.outside))

abbrev pub or_register :
    {S : Type 0}
    → Transport S
    → AgentState
    → Outcome AgentState
    → CredsFile
    → S
    → Outcome AgentState × (CredsFile × S)
or_register broker a (returns found) file s = (returns found, (file, s))
or_register broker a (raises (value_error e)) file s =
    agent_after (register broker none (record { agent = a; creds = file; outside = s }))
or_register broker a (raises (http_status_error n)) file s =
    (raises (http_status_error n), (file, s))
or_register broker a (raises request_error) file s = (raises request_error, (file, s))
or_register broker a (raises key_error) file s = (raises key_error, (file, s))
or_register broker a (raises type_error) file s = (raises type_error, (file, s))
or_register broker a (raises (runtime_error e)) file s = (raises (runtime_error e), (file, s))

unfoldable pub connect_or_register :
    {S : Type 0}
    → Transport S
    → String
    → String
    → Option Json
    → String
    → CredsFile
    → S
    → Outcome AgentState × (CredsFile × S)
connect_or_register broker broker_url name meta dm_policy file s =
    or_register broker
      (record (new_agent broker_url name) { metadata = meta_or_empty meta; dm_policy = dm_policy })
      (from_credentials broker_url name file) file s
