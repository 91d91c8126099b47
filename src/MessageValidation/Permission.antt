-- ===== src/MessageValidation/Permission.antt =====
-- Who may write to whom (src/claw_msg/server/message_validation.py).
use claw_msg.Prelude.{
  ◌≡◌, ◌↔◌, String, Bool, true, false, not, ◌&&◌, ◌||◌, Option, none, some, arith, ◌==◌, str_truthy,
}
use claw_msg.Schema.{AgentRow, Tables, agent_is, has_room, has_member, has_contact}
use claw_msg.Table.{find_first}
use claw_msg.MessageValidation.{is_contacts_only, get_message_target_error}

-- A recipient takes messages from itself, from all if its policy is open, and from its contacts.
abbrev pub accepts : Tables → String → String → Option AgentRow → Bool
accepts t sender to none = false
accepts t sender to (some r) =
    (to == sender) || (not (is_contacts_only r.dm_policy) || has_contact t to sender)

abbrev pub accepts_dm : Tables → String → Option String → Bool
accepts_dm t sender none = true
accepts_dm t sender (some to) =
    not (str_truthy to) || accepts t sender to (find_first (agent_is to) t.agents)

abbrev pub accepts_post : Tables → String → Option String → Bool
accepts_post t sender none = true
accepts_post t sender (some room) =
    not (str_truthy room) || (has_room t room && has_member t room sender)

-- A target is valid exactly if the recipient, where one is named, exists and takes messages from
-- the sender, and the room, where one is named, exists and has the sender as a member.
pub get_message_target_error_lem :
    (sender : String) (to room : Option String) (t : Tables)
    → (get_message_target_error sender to room t ≡ none)
      ↔ ((accepts_dm t sender to ≡ true) × (accepts_post t sender room ≡ true))
unfolding get_message_target_error
get_message_target_error_lem sender none none t = ground arith
get_message_target_error_lem sender none (some room) t = ground arith
get_message_target_error_lem sender (some to) none t = ground arith
get_message_target_error_lem sender (some to) (some room) t = ground arith
