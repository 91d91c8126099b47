-- ===== src/Database/Unique.antt =====
-- After the migration no two agents have one name (src/claw_msg/server/database.py).
use claw_msg.Prelude.{
  ◌≤◌, ◌≡◌, refl, sym, ap, ◌∙◌, String, true, false, ◌&&◌, inl, inr, Option, List, [], ◌∷◌, ◌==◌,
  any, any-append, eq_refl, nocase_eq, Bool-cases, arith,
}
use mathlib.Core.Bool.{false≢true}
use mathlib.Core.Path.{subst}
use claw_msg.Schema.{AgentRow, Tables, agent_is, commit, IsSettled}
use claw_msg.Table.{count_where, delete_where}
use claw_msg.Table.Laws.{count_where-delete_le}
use claw_msg.MessageValidation.{name_is}
use claw_msg.Exec.{World, ok, commit_db, bind-eq-ok, raised-ne-ok, ◌>>◌}
use claw_msg.Database.{
  dedup_migration, has_migration, add_migration, duplicate_names, kept_id, is_doomed, drop_agents,
  delete_duplicates, delete_each, deduplicate_agents, run_dedup_migration, init_db, is_referenced,
  mark_migration_applied,
}
use claw_msg.Database.Names.{HasKeys, count_left, kept_once, in_duplicates, count_same}

delete_duplicates-ok :
    (name : String) (w : World) {u : Unit {0}} {w' : World}
    → delete_duplicates name w ≡ (ok u, w')
    → w'.db.tables ≡ drop_agents (is_doomed name (kept_id name w.db.tables)) w.db.tables
delete_duplicates-ok name w h =
    elim (Bool-cases (
      any (λ r. is_doomed name (kept_id name w.db.tables) r && is_referenced w.db.tables r.id)
        w.db.tables.agents)) [
          | inl e ↦ absurd (raised-ne-ok (ap (λ p. p.0) (rw e at h)))
          | inr e ↦ sym (ap (λ p. p.1.db.tables) (rw e at h))
        ]

-- What the deletes have done to the agents.
abbrev Deduped : List String → List AgentRow → List AgentRow → Type 0
Deduped names rows rows' =
    ((n : String) → count_where (name_is n) rows' ≤ count_where (name_is n) rows)
    × ((n : String) → any (nocase_eq n) names ≡ true → count_where (name_is n) rows' ≤ 1)

Deduped-more :
    (name : String) (names : List String) (k : Option String) (rows rows' : List AgentRow)
    → HasKeys rows
    → Deduped names (delete_where (is_doomed name k) rows) rows'
    → Deduped (name ∷ names) rows rows'
unfolding any
Deduped-more name names k rows rows' h (fewer, once) = (
  λ n. omega (arith, fewer n, count_where-delete_le (name_is n) (is_doomed name k) rows),
  λ n e. elim (Bool-cases (nocase_eq n name)) [
    | inl s ↦ omega (
      arith,
      fewer n,
      count_same n name (delete_where (is_doomed name k) rows) s,
      count_left name k rows,
      kept_once k rows h,
    )
    | inr s ↦ once n (rw s at e)
  ],
)

delete_each-ok :
    (names : List String) (w : World) {u : Unit {0}} {w' : World}
    → delete_each names w ≡ (ok u, w')
    → HasKeys w.db.tables.agents
    → Deduped names w.db.tables.agents w'.db.tables.agents
unfolding delete_each any
delete_each-ok [] w {u} {w'} h keys =
    let e = ap (λ p. p.1.db.tables.agents) h in
    (λ n. omega (arith, ap (count_where (name_is n)) e), λ n s. absurd (false≢true s))
delete_each-ok (name ∷ names) w {u} {w'} h keys =
    let (v, d, k) = bind-eq-ok (delete_duplicates name) (λ _. delete_each names) w h in
    let p = is_doomed name (kept_id name w.db.tables) in
    let same : (delete_duplicates name w).1.db.tables.agents ≡ delete_where p w.db.tables.agents =
      ap (λ t. t.agents) (delete_duplicates-ok name w d) in
    Deduped-more name names (kept_id name w.db.tables) w.db.tables.agents w'.db.tables.agents keys (
      subst (λ (rows : List AgentRow). Deduped names rows w'.db.tables.agents) same
        (delete_each-ok names (delete_duplicates name w).1 k (λ j.
          subst (λ (rows : List AgentRow). count_where (agent_is j) rows ≤ 1) (sym same)
            (omega (arith, keys j, count_where-delete_le (agent_is j) p w.db.tables.agents)))))

marked : (name : String) (t : Tables) → has_migration (add_migration name t) name ≡ true
unfolding any
marked name t = elim (Bool-cases (has_migration t name)) [
  | inl e ↦ rw e e
  | inr e ↦
      rw e
        (any-append (λ n. n == name) t.schema_migrations (name ∷ []) ∙ ground (arith, eq_refl name))
]

-- Each name is of one agent at most, and the migration is marked.
abbrev pub Migrated : Tables → Type 0
Migrated t =
    ((n : String) → count_where (name_is n) t.agents ≤ 1) × (has_migration t dedup_migration ≡ true)

agents_kept : (name : String) (t : Tables) → (add_migration name t).agents ≡ t.agents
agents_kept name t = ground arith

migration-ok :
    (w : World) {u : Unit {0}} {w' : World}
    → HasKeys w.db.tables.agents
    → (deduplicate_agents >> mark_migration_applied dedup_migration) w ≡ (ok u, w')
    → Migrated w'.db.tables
unfolding any
migration-ok w {u} {w'} keys h =
    let (u1, d, k) =
      bind-eq-ok deduplicate_agents (λ _. mark_migration_applied dedup_migration) w h in
    let v = (deduplicate_agents w).1 in
    let names = duplicate_names [] w.db.tables.agents in
    let (fewer, once) = delete_each-ok names w d keys in
    subst Migrated (ap (λ p. p.1.db.tables) k) (
      λ n.
          subst (λ (rows : List AgentRow). count_where (name_is n) rows ≤ 1)
            (sym (agents_kept dedup_migration v.db.tables))
            (elim (in_duplicates n [] w.db.tables.agents refl) [
              | inl c ↦ omega (arith, fewer n)
              | inr e ↦ once n e
            ]),
      marked dedup_migration v.db.tables,
    )

runs :
    (w : World)
    → has_migration w.db.tables dedup_migration ≡ false
    → run_dedup_migration w ≡ (deduplicate_agents >> mark_migration_applied dedup_migration) w
unfolding run_dedup_migration
runs w new = rw new refl

-- When `init_db` returns on a database that has not been migrated, no two agents have one name, in
-- whatever case it is written, the migration is marked as done, and all of it is committed. (The id
-- of an agent is a key.)
pub init_db_lem :
    (w : World) {u : Unit {0}} {w' : World}
    → has_migration w.db.tables dedup_migration ≡ false
    → HasKeys w.db.tables.agents
    → init_db w ≡ (ok u, w')
    → Migrated w'.db.tables × IsSettled w'.db
unfolding init_db commit
init_db_lem w {u} {w'} new keys h =
    let (u1, d, k) = bind-eq-ok run_dedup_migration (λ _. commit_db) w h in
    let done : Migrated (run_dedup_migration w).1.db.tables =
      migration-ok w keys (sym (runs w new) ∙ d) in
    subst (λ (v : World). Migrated v.db.tables × IsSettled v.db) (ap (λ p. p.1) k) (done, refl)
