-- ===== src/MessageValidation.antt =====
-- src/claw_msg/server/message_validation.py: who is meant by a name, and who may write to whom.
pub mod Targets
pub mod Permission
use claw_msg.Prelude.{
  ℕ, String, Bool, true, false, not, ◌&&◌, Option, none, some, List, [], ◌∷◌, ◌==◌, ltb, filter,
  take, nocase_eq, str_truthy, if◌then◌else◌,
}
use claw_msg.Schema.{
  AgentRow, DmPolicy, open_policy, contacts_only, Tables, agent_is, has_room, has_member,
  has_contact,
}
use claw_msg.Table.{find_first, count_where}

-- `name = ? COLLATE NOCASE`
abbrev pub name_is : String → AgentRow → Bool
name_is k r = nocase_eq r.name k

-- `if len(rows) == 1: return rows[0]["id"]`, else `None`
abbrev pub only_row : List AgentRow → Option String
only_row [] = none
only_row (r ∷ []) = some r.id
only_row (r ∷ s ∷ rows) = none

abbrev pub id_or_only : Option AgentRow → List AgentRow → Option String
id_or_only (some r) rows = some r.id
id_or_only none rows = only_row rows

unfoldable pub resolve_agent_target : String → Tables → Option String
resolve_agent_target identifier t =
    id_or_only (find_first (agent_is identifier) t.agents)
      (take 2 (filter (name_is identifier) t.agents))

unfoldable pub is_ambiguous_agent_name : String → Tables → Bool
is_ambiguous_agent_name identifier t = ltb 1 (count_where (name_is identifier) t.agents)

abbrev pub is_contacts_only : DmPolicy → Bool
is_contacts_only open_policy = false
is_contacts_only contacts_only = true

abbrev pub recipient_error : String → String → Option AgentRow → Tables → Option (ℕ × String)
recipient_error sender to none t = some (404, "Recipient agent not found")
recipient_error sender to (some r) t =
    if (not (to == sender) && is_contacts_only r.dm_policy) && not (has_contact t to sender)
    then some (403, "Not in contacts. Ask the recipient to add you first.")
    else none

abbrev pub dm_error : String → Option String → Tables → Option (ℕ × String)
dm_error sender none t = none
dm_error sender (some to) t =
    if str_truthy to then recipient_error sender to (find_first (agent_is to) t.agents) t else none

abbrev pub room_error : String → Option String → Tables → Option (ℕ × String)
room_error sender none t = none
room_error sender (some room) t =
    if str_truthy room
    then (if has_room t room
        then (if has_member t room sender
            then none
            else some (403, "Sender is not a member of the room"))
        else some (404, "Room not found"))
    else none

abbrev pub first_error : Option (ℕ × String) → Option (ℕ × String) → Option (ℕ × String)
first_error (some e) o = some e
first_error none o = o

unfoldable pub get_message_target_error :
    String → Option String → Option String → Tables → Option (ℕ × String)
get_message_target_error sender to_agent room_id t =
    first_error (dm_error sender to_agent t) (room_error sender room_id t)
