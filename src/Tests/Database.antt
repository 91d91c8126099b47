-- ===== src/Tests/Database.antt =====
-- An old database with two agents of one name.
use claw_msg.Prelude.{◌≡◌, refl, false, [], ◌∷◌, ◌==◌, any, filter, nocase_eq, arith, eq_iff}
use claw_msg.Schema.{open_policy, commit, IsSettled}
use claw_msg.Table.{count_where, delete_where, order_desc, insert_desc}
use claw_msg.Exec.{World, ok}
use claw_msg.Database.{
  dedup_migration, has_migration, duplicate_names, kept_id, delete_each, is_referenced,
  run_dedup_migration, init_db,
}
use claw_msg.Database.Names.{HasKeys}
use claw_msg.Database.Unique.{Migrated, init_db_lem}
use claw_msg.Tests.Sample.{world, agent_row}
use claw_msg.Schema.{empty_tables}

abbrev old : World
old = record world {
  db = record world.db {
    tables = record empty_tables {
      agents = agent_row "a1" "alice" open_policy ∷ agent_row "a2" "Alice" open_policy ∷ [];
    };
  };
}

abbrev after : World
after = (init_db old).1

init_returns : init_db old ≡ (ok tt, after)
unfolding init_db run_dedup_migration delete_each duplicate_names kept_id is_referenced any filter
    nocase_eq ◌==◌ order_desc insert_desc delete_where commit
init_returns = refl

not_migrated : has_migration old.db.tables dedup_migration ≡ false
unfolding any
not_migrated = refl

differ : ("a1" == "a2") ≡ false
unfolding ◌==◌
differ = refl

old-HasKeys : HasKeys old.db.tables.agents
unfolding count_where
old-HasKeys k = ground (arith, differ, eq_iff "a1" k, eq_iff "a2" k, eq_iff "a1" "a2")

init_db_example : Migrated after.db.tables × IsSettled after.db
init_db_example = init_db_lem old not_migrated old-HasKeys init_returns
