-- ===== src/Database.antt =====
-- src/claw_msg/server/database.py: the migration that `init_db` runs on an old database. The
-- pragmas are left out, the tables are those of Schema; what SQL leaves open, the row that names a
-- group and the order of rows of one time, is the first row here.
pub mod Names
pub mod Unique
pub mod Columns
use claw_msg.Prelude.{
  ℕ, String, Bool, true, false, not, ◌&&◌, ◌||◌, Option, none, some, List, [], ◌∷◌, ◌++◌, ◌==◌, any,
  filter, nocase_eq, opt_eq, if◌then◌else◌,
}
use claw_msg.Schema.{
  AgentRow, MessageRow, RoomRow, MemberRow, QueueRow, ContactRow, Tables, agent_is,
}
use claw_msg.Table.{delete_where, order_desc}
use claw_msg.MessageValidation.{name_is}
use claw_msg.Exec.{
  World, ok, integrity_error, Exec, pure, raise, raise_if, modify_tables, commit_db, ◌>>=◌, ◌>>◌,
}

-- `LEGACY_AGENT_NAME_DEDUP_MIGRATION`
abbrev pub dedup_migration : String
dedup_migration = "legacy_agent_name_dedup"

-- `_has_migration`
abbrev pub has_migration : Tables → String → Bool
has_migration t name = any (λ n. n == name) t.schema_migrations

abbrev pub add_migration : String → Tables → Tables
add_migration name t =
    if has_migration t name
    then t
    else record t { schema_migrations = t.schema_migrations ++ name ∷ [] }

-- `_mark_migration_applied`
abbrev pub mark_migration_applied : String → Exec (Unit {0})
mark_migration_applied name = modify_tables (add_migration name)

-- The names that more than one row has, each once; `seen` are the names of the rows before.
unfoldable pub duplicate_names : List String → List AgentRow → List String
duplicate_names seen [] = []
duplicate_names seen (r ∷ rows) =
    let rest = duplicate_names (r.name ∷ seen) rows in
    if any (nocase_eq r.name) seen
    then rest
    else (if any (name_is r.name) rows then r.name ∷ rest else rest)

abbrev pub created_at : AgentRow → ℕ
created_at r = r.created_at

abbrev pub first_id : List AgentRow → Option String
first_id [] = none
first_id (r ∷ rows) = some r.id

-- `SELECT id … ORDER BY created_at DESC LIMIT 1`
unfoldable pub kept_id : String → Tables → Option String
kept_id name t = first_id (order_desc created_at (filter (name_is name) t.agents))

abbrev pub is_kept : Option String → AgentRow → Bool
is_kept none r = false
is_kept (some k) r = agent_is k r

-- The `WHERE` of the `DELETE`.
abbrev pub is_doomed : String → Option String → AgentRow → Bool
is_doomed name kept r = name_is name r && not (is_kept kept r)

-- The foreign keys that refer to an agent.
unfoldable pub is_referenced : Tables → String → Bool
is_referenced t k =
    any (λ (m : MessageRow). m.from_agent == k) t.messages
    || (any (λ (r : RoomRow). r.created_by == k) t.rooms
        || (any (λ (m : MemberRow). m.agent_id == k) t.room_members
            || (any (λ (q : QueueRow). q.agent_id == k) t.delivery_queue
                || any (λ (c : ContactRow). (c.agent_id == k) || (c.peer_id == k)) t.contacts)))

abbrev pub drop_agents : (AgentRow → Bool) → Tables → Tables
drop_agents p t = record t { agents = delete_where p t.agents }

-- The `DELETE` of one name; a row that is referred to makes it fail.
abbrev pub delete_duplicates : String → Exec (Unit {0})
delete_duplicates name w =
    let p = is_doomed name (kept_id name w.db.tables) in
    (raise_if (any (λ r. p r && is_referenced w.db.tables r.id) w.db.tables.agents) integrity_error
        >> modify_tables (drop_agents p))
      w

unfoldable pub delete_each : List String → Exec (Unit {0})
delete_each [] w = (ok tt, w)
delete_each (name ∷ names) w = (delete_duplicates name >> delete_each names) w

-- `_deduplicate_agents`
abbrev pub deduplicate_agents : Exec (Unit {0})
deduplicate_agents w = delete_each (duplicate_names [] w.db.tables.agents) w

-- `_run_legacy_agent_name_dedup_migration`
unfoldable pub run_dedup_migration : Exec (Unit {0})
run_dedup_migration w =
    if has_migration w.db.tables dedup_migration
    then (ok tt, w)
    else (deduplicate_agents >> mark_migration_applied dedup_migration) w

-- The last steps of `init_db`.
unfoldable pub init_db : Exec (Unit {0})
init_db = do run_dedup_migration; commit_db
