-- ===== src/Cli/Commands.antt =====
-- The commands with one call of the broker (src/claw_msg/cli/main.py).
use Prim.Native.String.{◌++◌}
use claw_msg.Prelude.{String, Bool, Option, none, some, List, [], ◌∷◌, if◌then◌else◌}
use claw_msg.Prelude.Int.{pos}
use claw_msg.Json.{
  Json, null, boolean, number, str, array, object, Items, nil, cons, Fields, get_field, get_or,
}
use claw_msg.Models.{unset, nulled, given}
use claw_msg.Credentials.{CredsFile}
use claw_msg.Client.Connection.{fields_of}
use claw_msg.Client.Calls.{
  key_error, type_error, Outcome, returns, raises, Transport, Call, done, ◌>>=◌,
}
use claw_msg.Client.Agent.{AgentState, Host, register}
use claw_msg.Client.Agent.Methods.{
  new_agent, send, send_to_room, get_profile, create_room, list_rooms, join_room, leave_room,
  alias_contact, list_contacts, remove_contact,
}
use claw_msg.Client.Agent.Profile.{update_profile}
use claw_msg.Cli.Options.{capabilities_of}

-- `str` of a value in a text, its truth, and `json.dumps`.
pub record Printer : Type 0 where
  pub show : Json → String
  pub truthy_json : Json → Bool
  pub dumps : Json → String

-- `Agent(broker, token=token)`
unfoldable pub agent_with : String → String → AgentState
agent_with broker_url token = record (new_agent broker_url "unnamed-agent") { token = some token }

-- A command leaves the lines that it prints, the file of the host and the outside.
abbrev pub Command : Type 0 → Type 0
Command S = CredsFile → S → Outcome (List String) × (CredsFile × S)

unfoldable pub run_as : {S : Type 0} → AgentState → Call (Host S) (List String) → Command S
run_as a m file s =
    let (r, w) = m (record { agent = a; creds = file; outside = s }) in (r, (w.creds, w.outside))

-- `value[key]`, of what is an object
abbrev key_of : Option Json → Outcome Json
key_of none = raises key_error
key_of (some v) = returns v

abbrev pub item : String → Option Fields → Outcome Json
item key none = raises type_error
item key (some fs) = key_of (get_field key fs)

abbrev then_line : {A : Type 0} → Outcome A → (A → Outcome String) → Outcome String
then_line (returns a) f = f a
then_line (raises e) f = raises e

abbrev then_lines : Outcome String → Outcome (List String) → Outcome (List String)
then_lines (raises e) rest = raises e
then_lines (returns l) (raises e) = raises e
then_lines (returns l) (returns ls) = returns (l ∷ ls)

-- A line for each element of a reply.
unfoldable pub each_line : (Option Fields → Outcome String) → Items → Outcome (List String)
each_line f nil = returns []
each_line f (cons x xs) = then_lines (f (fields_of x)) (each_line f xs)

abbrev lines_of : (Option Fields → Outcome String) → Json → Outcome (List String)
lines_of f null = raises type_error
lines_of f (boolean b) = raises type_error
lines_of f (number n) = raises type_error
lines_of f (str s) = raises type_error
lines_of f (array xs) = each_line f xs
lines_of f (object fs) = raises type_error

-- `if not result`, else the loop
abbrev pub lines_or :
    (Json → Bool) → String → (Option Fields → Outcome String) → Json → Outcome (List String)
lines_or truthy empty f j = if truthy j then lines_of f j else returns (empty ∷ [])

-- `result.get(key, default)` in a line
abbrev shown : (Json → String) → String → String → Option Fields → Outcome String
shown show key default none = raises type_error
shown show key default (some fs) = returns (show (get_or (get_field key fs) (str default)))

abbrev one_line : String → Outcome String → Outcome (List String)
one_line before (returns l) = returns ((before ++ l) ∷ [])
one_line before (raises e) = raises e

module _ {S : Type 0} (broker : Transport S) (p : Printer) where
  abbrev pub print : Outcome (List String) → Call (Host S) (List String)
  print r w = (r, w)

  -- `result.get('id', 'ok') if result else 'ok'`
  abbrev sent_line : Option Json → Outcome (List String)
  sent_line none = returns ("Sent: ok" ∷ [])
  sent_line (some j) =
      if p.truthy_json j
      then one_line "Sent: " (shown p.show "id" "ok" (fields_of j))
      else returns ("Sent: ok" ∷ [])

  unfoldable pub send_command : String → String → String → String → Command S
  send_command to broker_url token message =
      run_as (agent_with broker_url token)
        (send broker to message "text/plain" none >>= λ r. print (sent_line r))

  unfoldable pub room_create : String → String → String → String → Command S
  room_create broker_url token name description = run_as (agent_with broker_url token) (
      create_room broker name description (pos 50) >>= λ r.
      print (one_line "Room created: " (shown p.show "id" "" (fields_of r))))

  abbrev room_line : Option Fields → Outcome String
  room_line room = then_line (item "id" room) (λ id.
      then_line (item "name" room) (λ name. returns ("  " ++ (p.show id ++ ("  " ++ p.show name)))))

  unfoldable pub room_list : String → String → Command S
  room_list broker_url token =
      run_as (agent_with broker_url token)
        (list_rooms broker >>= λ r. print (lines_or p.truthy_json "No rooms." room_line r))

  unfoldable pub room_join : String → String → String → Command S
  room_join broker_url token room_id =
      run_as (agent_with broker_url token)
        (join_room broker room_id >>= λ r. done (("Joined room: " ++ room_id) ∷ []))

  unfoldable pub room_leave : String → String → String → Command S
  room_leave broker_url token room_id =
      run_as (agent_with broker_url token)
        (leave_room broker room_id >>= λ r. done (("Left room: " ++ room_id) ∷ []))

  unfoldable pub room_send : String → String → String → String → Command S
  room_send broker_url token room_id message =
      run_as (agent_with broker_url token)
        (send_to_room broker room_id message "text/plain" >>= λ r. print (sent_line r))

  unfoldable pub profile_get : String → String → Command S
  profile_get broker_url token =
      run_as (agent_with broker_url token) (get_profile broker >>= λ r. done (p.dumps r ∷ []))

  unfoldable pub profile_set_owner : String → String → String → Command S
  profile_set_owner broker_url token owner =
      run_as (agent_with broker_url token)
        (update_profile broker (given owner) unset unset >>= λ r. done (p.dumps r ∷ []))

  unfoldable pub profile_clear_owner : String → String → Command S
  profile_clear_owner broker_url token =
      run_as (agent_with broker_url token)
        (update_profile broker nulled unset unset >>= λ r. done (p.dumps r ∷ []))

  unfoldable pub contact_remove : String → String → String → Command S
  contact_remove broker_url token peer_id =
      run_as (agent_with broker_url token)
        (remove_contact broker peer_id >>= λ r. done (("Removed: " ++ peer_id) ∷ []))

  abbrev alias_line : Option Fields → Outcome String
  alias_line c = then_line (item "peer_id" c) (λ id.
      then_line (item "alias" c) (λ alias. returns (p.show id ++ (" alias=" ++ p.show alias))))

  unfoldable pub contact_alias : String → String → String → String → Command S
  contact_alias broker_url token peer_id alias = run_as (agent_with broker_url token) (
      alias_contact broker peer_id alias >>= λ r.
      print (one_line "Updated: " (alias_line (fields_of r))))

  -- `f" ({c['alias']})" if c.get("alias") else ""`
  abbrev alias_part : Json → String
  alias_part j = if p.truthy_json j then " (" ++ (p.show j ++ ")") else ""

  abbrev contact_line : Option Fields → Outcome String
  contact_line none = raises type_error
  contact_line (some c) = then_line (item "peer_id" (some c)) (λ id. returns (
      "  "
      ++ (p.show id
          ++ ("  "
              ++ (p.show (get_or (get_field "peer_name" c) (str "?"))
                  ++ (alias_part (get_or (get_field "alias" c) null)
                      ++ ("  ["
                          ++ (p.show (get_or (get_field "peer_status" c) (str "?")) ++ "]"))))))))

  unfoldable pub contact_list : String → String → Command S
  contact_list broker_url token =
      run_as (agent_with broker_url token)
        (list_contacts broker >>= λ r. print (lines_or p.truthy_json "No contacts." contact_line r))

  -- The lines after a registration; the token is that of the agent.
  abbrev token_line : Option String → String
  token_line none = "Token: None"
  token_line (some t) = "Token: " ++ t

  unfoldable pub register_command : String → Option String → String → String → Bool → Command S
  register_command name owner broker_url capabilities application =
      run_as
        (record (new_agent broker_url name) {
          owner = owner;
          capabilities = capabilities_of capabilities;
          is_application = application;
        })
        (register broker none >>= λ id w. (
          returns (
              ("Registered: " ++ id)
              ∷ token_line w.agent.token
              ∷ "Credentials saved to ~/.claw-msg/credentials.json"
              ∷ []),
          w,
        ))
