-- ===== src/Rooms.antt =====
-- src/claw_msg/server/routes_rooms.py: rooms and their members. A member reads and writes a room's
-- messages; `max_members` is an int of any sign.
pub mod Bounds
pub mod Limits
use claw_msg.Prelude.{
  ℕ, String, Bool, true, false, not, ◌&&◌, Option, none, some, List, [], ◌∷◌, ◌++◌, ◌==◌, filter,
  map, if◌then◌else◌,
}
use claw_msg.Prelude.Int.{ℤ, reaches}
use claw_msg.Schema.{
  AgentRow, RoomRow, MemberRow, RoomRole, owner, member, Tables, agent_is, room_is, member_is,
  room_fits, member_refers, has_member, has_room,
}
use claw_msg.Table.{find_first, count_where, delete_where}
use claw_msg.Messages.{in_room}
use claw_msg.OfflineQueue.{cons_some}
use claw_msg.Exec.{
  Env, sql_now, World, http, Result, ok, raised, Exec, pure, raise, gets, raise_if, insert_row,
  insert_or_ignore, modify_tables, commit_db, ◌>>=◌, ◌>>◌,
}

-- `RoomCreateRequest` (common/models.py), as validated.
pub record RoomCreateRequest : Type 0 where
  pub name : String
  pub description : String
  pub max_members : ℤ

-- `RoomResponse` has the columns of the row.
abbrev pub RoomResponse : Type 0
RoomResponse = RoomRow

abbrev pub room_row : Env → RoomCreateRequest → String → RoomRow
room_row env req agent = record {
  id = env.uuid;
  name = req.name;
  description = req.description;
  created_by = agent;
  max_members = req.max_members;
  created_at = sql_now env;
}

abbrev pub member_row : Env → String → String → RoomRole → MemberRow
member_row env room agent role = record {
  room_id = room;
  agent_id = agent;
  role = role;
  joined_at = sql_now env;
}

abbrev pub add_room : RoomRow → Tables → Tables
add_room r t = record t { rooms = t.rooms ++ r ∷ [] }

abbrev pub add_member : MemberRow → Tables → Tables
add_member r t = record t { room_members = t.room_members ++ r ∷ [] }

-- `PRIMARY KEY (room_id, agent_id)` and the foreign keys.
abbrev pub member_fits : Tables → MemberRow → Bool
member_fits t r = not (has_member t r.room_id r.agent_id) && member_refers t r

abbrev pub room_or_404 : Option RoomRow → Result RoomRow
room_or_404 none = raised (http 404 "Room not found")
room_or_404 (some r) = ok r

-- The row just written is there to be read.
abbrev pub read_room : String → Exec RoomResponse
read_room room w = (room_or_404 (find_first (room_is room) w.db.tables.rooms), w)

unfoldable pub create_room : Env → RoomCreateRequest → String → Exec RoomResponse
create_room env req agent = do
  insert_row (λ t. room_fits t (room_row env req agent)) (add_room (room_row env req agent))
  insert_row (λ t. member_fits t (member_row env env.uuid agent owner))
      (add_member (member_row env env.uuid agent owner))
  commit_db
  read_room env.uuid

unfoldable pub get_room : String → Exec RoomResponse
get_room room w = read_room room w

abbrev pub of_agent : String → MemberRow → Bool
of_agent agent r = r.agent_id == agent

-- `JOIN room_members`, in the order of the members' table.
unfoldable pub join_rooms : List RoomRow → List MemberRow → List RoomRow
join_rooms rs [] = []
join_rooms rs (m ∷ ms) = cons_some (find_first (room_is m.room_id) rs) (join_rooms rs ms)

unfoldable pub list_rooms : Tables → String → List RoomResponse
list_rooms t agent = join_rooms t.rooms (filter (of_agent agent) t.room_members)

unfoldable pub member_count : String → Tables → ℕ
member_count room t = count_where (in_room room) t.room_members

abbrev pub is_full : RoomRow → Tables → Bool
is_full r t = reaches (member_count r.id t) r.max_members

abbrev pub insert_member : Env → String → String → Exec (Unit {0})
insert_member env room agent = do
  insert_or_ignore (λ t. has_member t room agent)
      (λ t. member_refers t (member_row env room agent member))
      (add_member (member_row env room agent member))
  commit_db

abbrev pub join_found : Env → String → String → Option RoomRow → Exec (Unit {0})
join_found env room agent none w = (raised (http 404 "Room not found"), w)
join_found env room agent (some r) w =
    if reaches (member_count room w.db.tables) r.max_members
    then (raised (http 409 "Room is full"), w)
    else insert_member env room agent w

unfoldable pub join_room : Env → String → String → Exec (Unit {0})
join_room env room agent w =
    join_found env room agent (find_first (room_is room) w.db.tables.rooms) w

abbrev pub drop_member : String → String → Tables → Tables
drop_member room agent t = record t {
  room_members = delete_where (member_is room agent) t.room_members;
}

unfoldable pub leave_room : String → String → Exec (Unit {0})
leave_room room agent = do modify_tables (drop_member room agent); commit_db

-- A row of `list_members`.
pub record MemberInfo : Type 0 where
  pub id : String
  pub name : String
  pub role : RoomRole
  pub joined_at : ℕ

abbrev pub info_of : MemberRow → Option AgentRow → Option MemberInfo
info_of m none = none
info_of m (some a) =
    some (record { id = a.id; name = a.name; role = m.role; joined_at = m.joined_at })

unfoldable pub join_agents : List AgentRow → List MemberRow → List MemberInfo
join_agents rs [] = []
join_agents rs (m ∷ ms) =
    cons_some (info_of m (find_first (agent_is m.agent_id) rs)) (join_agents rs ms)

unfoldable pub list_members : Tables → String → List MemberInfo
list_members t room = join_agents t.agents (filter (in_room room) t.room_members)
