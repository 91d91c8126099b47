-- ===== src/Schema/Rows.antt =====
-- The rows and the connection (src/claw_msg/server/database.py, src/claw_msg/common/models.py).
use claw_msg.Prelude.{ℕ, String, Bool, Option, List, [], ◌≡◌}
use claw_msg.Prelude.Int.{ℤ}
use claw_msg.Json.{Json}

-- `AgentStatus`
pub data AgentStatus : Type 0 where
  online offline : AgentStatus

-- `DeliveryStatus`
pub data DeliveryStatus : Type 0 where
  pending delivered acked : DeliveryStatus

-- `RoomRole`
pub data RoomRole : Type 0 where
  owner member : RoomRole

-- `DMPolicy`
pub data DmPolicy : Type 0 where
  open_policy contacts_only : DmPolicy

-- The `trusted_identity_json` column: what `_build_trusted_identity` makes.
pub record TrustedIdentity : Type 0 where
  pub issuer : String
  pub kind : String
  pub account_id : String
  pub peer_id : String
  pub openclaw_agent_id : String

pub record AgentRow : Type 0 where
  pub id : String
  pub name : String
  pub owner : Option String
  pub capabilities : List String
  pub metadata : Json
  pub trusted_identity : Option TrustedIdentity
  pub token_hash : String
  pub token_lookup : String
  pub is_application : Bool
  pub dm_policy : DmPolicy
  pub status : AgentStatus
  pub last_seen_at : Option ℕ
  pub public_key : Option String
  pub created_at : ℕ

pub record MessageRow : Type 0 where
  pub id : String
  pub from_agent : String
  pub to_agent : Option String
  pub room_id : Option String
  pub content : String
  pub content_type : String
  pub reply_to : Option String
  pub created_at : ℕ

pub record RoomRow : Type 0 where
  pub id : String
  pub name : String
  pub description : String
  pub created_by : String
  pub max_members : ℤ
  pub created_at : ℕ

pub record MemberRow : Type 0 where
  pub room_id : String
  pub agent_id : String
  pub role : RoomRole
  pub joined_at : ℕ

pub record QueueRow : Type 0 where
  pub message_id : String
  pub agent_id : String
  pub status : DeliveryStatus
  pub attempts : ℕ
  pub expires_at : ℕ

-- `tags` is `none` where the column holds the text `null`.
pub record ContactRow : Type 0 where
  pub agent_id : String
  pub peer_id : String
  pub alias : String
  pub tags : Option (List String)
  pub notes : String
  pub met_via : String
  pub added_at : ℕ

pub record Tables : Type 0 where
  pub agents : List AgentRow
  pub messages : List MessageRow
  pub rooms : List RoomRow
  pub room_members : List MemberRow
  pub delivery_queue : List QueueRow
  pub contacts : List ContactRow
  pub schema_migrations : List String

abbrev pub empty_tables : Tables
empty_tables = record {
  agents = [];
  messages = [];
  rooms = [];
  room_members = [];
  delivery_queue = [];
  contacts = [];
  schema_migrations = [];
}

-- The one connection that all requests share. `tables` is what it reads, its open transaction
-- included; `durable` is what is committed.
pub record Db : Type 0 where
  pub tables : Tables
  pub durable : Tables

-- `await db.commit()`
unfoldable pub commit : Db → Db
commit db = record db { durable = db.tables }

-- No transaction is open.
abbrev pub IsSettled : Db → Type 0
IsSettled db = db.durable ≡ db.tables
