-- ===== src/Schema/Integrity.antt =====
-- The constraints of `SCHEMA`: what SQLite, with `PRAGMA foreign_keys=ON`, checks of a row.
use claw_msg.Prelude.{String, Bool, ◌&&◌, not, any, ◌==◌}
use claw_msg.Schema.Rows.{AgentRow, MessageRow, RoomRow, MemberRow, QueueRow, ContactRow, Tables}

abbrev pub agent_is : String → AgentRow → Bool
agent_is k r = r.id == k

abbrev pub message_is : String → MessageRow → Bool
message_is k r = r.id == k

abbrev pub room_is : String → RoomRow → Bool
room_is k r = r.id == k

abbrev pub member_is : String → String → MemberRow → Bool
member_is room agent r = (r.room_id == room) && (r.agent_id == agent)

abbrev pub queue_is : String → String → QueueRow → Bool
queue_is message agent r = (r.message_id == message) && (r.agent_id == agent)

abbrev pub contact_is : String → String → ContactRow → Bool
contact_is agent peer r = (r.agent_id == agent) && (r.peer_id == peer)

unfoldable pub has_agent : Tables → String → Bool
has_agent t k = any (agent_is k) t.agents

unfoldable pub has_message : Tables → String → Bool
has_message t k = any (message_is k) t.messages

unfoldable pub has_room : Tables → String → Bool
has_room t k = any (room_is k) t.rooms

unfoldable pub has_member : Tables → String → String → Bool
has_member t room agent = any (member_is room agent) t.room_members

unfoldable pub has_queued : Tables → String → String → Bool
has_queued t message agent = any (queue_is message agent) t.delivery_queue

unfoldable pub has_contact : Tables → String → String → Bool
has_contact t agent peer = any (contact_is agent peer) t.contacts

-- `PRIMARY KEY` and `FOREIGN KEY` of a row to be inserted.
unfoldable pub message_fits : Tables → MessageRow → Bool
message_fits t r = not (has_message t r.id) && has_agent t r.from_agent

unfoldable pub room_fits : Tables → RoomRow → Bool
room_fits t r = not (has_room t r.id) && has_agent t r.created_by

-- The foreign keys alone: `INSERT OR IGNORE` checks them too.
unfoldable pub member_refers : Tables → MemberRow → Bool
member_refers t r = has_room t r.room_id && has_agent t r.agent_id

unfoldable pub queue_refers : Tables → QueueRow → Bool
queue_refers t r = has_message t r.message_id && has_agent t r.agent_id

unfoldable pub contact_refers : Tables → ContactRow → Bool
contact_refers t r = has_agent t r.agent_id && has_agent t r.peer_id
