-- ===== src/Schema/WellFormed.antt =====
-- The tables keep the foreign keys of `SCHEMA` (src/claw_msg/server/database.py).
use claw_msg.Prelude.{◌≡◌, true, All}
use claw_msg.Schema.Rows.{Tables}
use claw_msg.Schema.Integrity.{has_agent, member_refers, queue_refers, contact_refers}

pub record IsWellFormed (t : Tables) : Type 0 where
  pub messages_refer : All (λ r. has_agent t r.from_agent ≡ true) t.messages
  pub rooms_refer : All (λ r. has_agent t r.created_by ≡ true) t.rooms
  pub members_refer : All (λ r. member_refers t r ≡ true) t.room_members
  pub queue_refers_all : All (λ r. queue_refers t r ≡ true) t.delivery_queue
  pub contacts_refer : All (λ r. contact_refers t r ≡ true) t.contacts
