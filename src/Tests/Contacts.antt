-- ===== src/Tests/Contacts.antt =====
-- Contacts of the sample, by their agent and by the admin.
use claw_msg.Prelude.{◌≡◌, ◌+◌, refl, ◌==◌, false, some, [], ◌∷◌, any, length}
use claw_msg.Schema.{open_policy, has_agent, has_contact, contact_refers, commit, IsSettled}
use claw_msg.Exec.{World, raised, ok}
use claw_msg.Contacts.{ContactAddRequest, add_contact, remove_contact}
use claw_msg.Contacts.Adding.{AddEnds, add_contact_lem}
use claw_msg.Contacts.Removing.{Removed, remove_contact_lem}
use claw_msg.Admin.{BulkContactPair, admin_bulk_add_contacts, add_pairs, insert_contact}
use claw_msg.Admin.Key.{has_valid_admin_key, require_admin}
use claw_msg.Admin.Guard.{remove, run_admin, guard_error, run_admin_guarded}
use claw_msg.Admin.Bulk.{HasAll, KeepsContacts, admin_bulk_add_contacts_lem}
use claw_msg.Tests.Sample.{env, world, agent_row}
use claw_msg.Tests.Outcome.{sender_known}

abbrev carol : ContactAddRequest
carol = record { peer_id = "c1"; alias = "c"; tags = []; notes = ""; met_via = "" }

add_contact_example : AddEnds env carol "b1" world (add_contact env carol "b1" world)
add_contact_example = add_contact_lem env carol "b1" world sender_known

remove_contact_example :
    Removed "b1" "a1" (agent_row "b1" "Bob" open_policy) world (remove_contact "b1" "a1" world)
remove_contact_example = remove_contact_lem "b1" "a1" (agent_row "b1" "Bob" open_policy) world

wrong_key : has_valid_admin_key env.config.admin_key (some "x") ≡ false
unfolding has_valid_admin_key ◌==◌
wrong_key = refl

run_admin_guarded_example :
    run_admin env (some "x") (remove "a1" "b1") world
    ≡ (raised (guard_error env.config.admin_key), world)
run_admin_guarded_example = run_admin_guarded env (some "x") (remove "a1" "b1") world wrong_key

abbrev pair : BulkContactPair
pair = record { agent_id = "b1"; peer_id = "c1"; alias = ""; tags = []; met_via = "" }

abbrev after : World
after = (admin_bulk_add_contacts env (some "k") (pair ∷ pair ∷ []) world).1

bulk_returns : admin_bulk_add_contacts env (some "k") (pair ∷ pair ∷ []) world ≡ (ok (1, 1), after)
unfolding admin_bulk_add_contacts require_admin has_valid_admin_key add_pairs insert_contact
    has_contact contact_refers has_agent any commit ◌==◌
bulk_returns = refl

bulk_example :
    (1 + 1 ≡ length (pair ∷ pair ∷ []))
    × (length after.db.tables.contacts ≡ length world.db.tables.contacts + 1)
    × HasAll after.db.tables (pair ∷ pair ∷ [])
    × KeepsContacts world.db.tables after.db.tables
    × IsSettled after.db
bulk_example = admin_bulk_add_contacts_lem env (some "k") (pair ∷ pair ∷ []) world bulk_returns
