-- ===== src/Tests/Sample.antt =====
-- Two agents and their contacts, a room, and one socket for each.
use claw_msg.Prelude.{String, false, none, some, [], ◌∷◌, nat_eq, not}
use claw_msg.Prelude.Int.{pos}
use claw_msg.Json.{object, end}
use claw_msg.Schema.{
  AgentRow, ContactRow, Tables, DmPolicy, open_policy, contacts_only, online, owner, member,
  empty_tables,
}
use claw_msg.Exec.{Config, Env, World}
use claw_msg.Messages.{MessageSendRequest}

abbrev pub agent_row : String → String → DmPolicy → AgentRow
agent_row id name policy = record {
  id = id;
  name = name;
  owner = none;
  capabilities = [];
  metadata = object end;
  trusted_identity = none;
  token_hash = "hash";
  token_lookup = name;
  is_application = false;
  dm_policy = policy;
  status = online;
  last_seen_at = none;
  public_key = none;
  created_at = 0;
}

abbrev pub contact_row : String → String → ContactRow
contact_row agent peer = record {
  agent_id = agent;
  peer_id = peer;
  alias = "";
  tags = some [];
  notes = "";
  met_via = "";
  added_at = 0;
}

abbrev pub tables : Tables
tables = record empty_tables {
  agents =
      agent_row "a1" "alice" contacts_only
      ∷ agent_row "b1" "Bob" open_policy
      ∷ agent_row "c1" "carol" contacts_only
      ∷ [];
  contacts = contact_row "a1" "b1" ∷ [];
  rooms =
      record {
        id = "r1";
        name = "general";
        description = "";
        created_by = "a1";
        max_members = pos 3;
        created_at = 0;
      }
      ∷ [];
  room_members =
      record { room_id = "r1"; agent_id = "a1"; role = owner; joined_at = 0 }
      ∷ record { room_id = "r1"; agent_id = "b1"; role = member; joined_at = 0 }
      ∷ record { room_id = "r1"; agent_id = "c1"; role = member; joined_at = 0 }
      ∷ [];
}

abbrev pub config : Config
config = record { rate_limit_per_min = 60; offline_queue_ttl = 604800000000; admin_key = "k" }

-- Socket 9 is dead.
abbrev pub env : Env
env = record {
  config = config;
  now = 5000000;
  monotonic = 7;
  uuid = "m1";
  alive = λ s. not (nat_eq s 9);
}

-- Alice has a live and a dead socket, Bob a live one, Carol none.
abbrev pub world : World
world = record {
  db = record { tables = tables; durable = tables };
  connections = ("a1", 1 ∷ 9 ∷ []) ∷ ("b1", 2 ∷ []) ∷ [];
  buckets = [];
  wire = [];
}

abbrev pub to_alice : MessageSendRequest
to_alice = record {
  to = some "Alice";
  room_id = some "r1";
  content = "hello";
  content_type = "text/plain";
  reply_to = none;
}
