-- ===== src/Admin.antt =====
-- src/claw_msg/server/routes_admin.py: the contacts of any agent, with the admin's key.
pub mod Key
pub mod Guard
pub mod Bulk
use claw_msg.Prelude.{
  ℕ, ◌+◌, String, Bool, true, false, not, ◌&&◌, Option, none, some, List, [], ◌∷◌, ◌++◌, ◌==◌,
  nat_eq, ltb, if◌then◌else◌,
}
use claw_msg.Schema.{AgentRow, ContactRow, Tables, agent_is, contact_refers, has_contact}
use claw_msg.Table.{find_first}
use claw_msg.Contacts.{
  ContactAddRequest, ContactResponse, contact_row, add_row, delete_contact, contact_count,
  contact_response, get_contact_row,
}
use claw_msg.Exec.{
  Env, World, http, attribute_error, Result, ok, raised, Exec, pure, raise, raise_if, insert_row,
  modify_tables, commit_db, ◌>>=◌, ◌>>◌,
}
use claw_msg.Admin.Key.{require_admin}

-- `BulkContactPair`: the agent, and the contact to be added, whose notes are empty.
pub record BulkContactPair : Type 0 where
  pub agent_id : String
  pub peer_id : String
  pub alias : String
  pub tags : List String
  pub met_via : String

pub record BulkRemovePair : Type 0 where
  pub agent_id : String
  pub peer_id : String

abbrev pub check_admin : Env → Option String → Exec (Unit {0})
check_admin env key w = (require_admin env.config.admin_key key, w)

-- `_insert_contact`: whether the contact is new.
unfoldable pub insert_contact : Env → String → ContactAddRequest → Exec Bool
insert_contact env agent req w =
    if has_contact w.db.tables agent req.peer_id
    then (ok false, w)
    else (insert_row (λ t. contact_refers t (contact_row env agent req))
            (add_row (contact_row env agent req))
          >> pure true)
        w

abbrev pub request_of : BulkContactPair → ContactAddRequest
request_of p = record {
  peer_id = p.peer_id;
  alias = p.alias;
  tags = p.tags;
  notes = "";
  met_via = p.met_via;
}

abbrev pub count_if : Bool → ℕ × ℕ → ℕ × ℕ
count_if true (done, rest) = (done + 1, rest)
count_if false (done, rest) = (done, rest + 1)

-- The loops over the pairs, with their two counts.
unfoldable pub add_pairs : Env → List BulkContactPair → ℕ × ℕ → Exec (ℕ × ℕ)
add_pairs env [] n w = (ok n, w)
add_pairs env (p ∷ ps) n w =
    (insert_contact env p.agent_id (request_of p) >>= λ b. add_pairs env ps (count_if b n)) w

unfoldable pub remove_pairs : List BulkRemovePair → ℕ × ℕ → Exec (ℕ × ℕ)
remove_pairs [] n w = (ok n, w)
remove_pairs (p ∷ ps) n w =
    let found = ltb 0 (contact_count p.agent_id p.peer_id w.db.tables) in
    (modify_tables (delete_contact p.agent_id p.peer_id) >> remove_pairs ps (count_if found n)) w

-- `created` and `skipped`
unfoldable pub admin_bulk_add_contacts : Env → Option String → List BulkContactPair → Exec (ℕ × ℕ)
admin_bulk_add_contacts env key pairs = do
  check_admin env key
  n ← add_pairs env pairs (0, 0)
  commit_db
  pure n

-- `removed` and `not_found`
unfoldable pub admin_bulk_remove_contacts : Env → Option String → List BulkRemovePair → Exec (ℕ × ℕ)
admin_bulk_remove_contacts env key pairs = do
  check_admin env key
  n ← remove_pairs pairs (0, 0)
  commit_db
  pure n

abbrev pub row_or_404 : String → Option AgentRow → Result (Unit {0})
row_or_404 detail none = raised (http 404 detail)
row_or_404 detail (some a) = ok tt

abbrev pub check_exists : String → String → Exec (Unit {0})
check_exists agent detail w =
    (row_or_404 detail (find_first (agent_is agent) w.db.tables.agents), w)

-- The reply of a contact that is not there would index `None`.
abbrev pub reply_or_fail : Option (ContactRow × AgentRow) → Result ContactResponse
reply_or_fail none = raised attribute_error
reply_or_fail (some row) = contact_response row

abbrev pub load_or_fail : String → String → Exec ContactResponse
load_or_fail agent peer w = (reply_or_fail (get_contact_row w.db.tables agent peer), w)

unfoldable pub admin_add_contact :
    Env → Option String → String → ContactAddRequest → Exec ContactResponse
admin_add_contact env key agent req = do
  check_admin env key
  check_exists agent "Agent not found"
  raise_if (req.peer_id == agent) (http 400 "Cannot add agent as its own contact")
  check_exists req.peer_id "Peer agent not found"
  created ← insert_contact env agent req
  raise_if (not created) (http 409 "Contact already exists")
  commit_db
  load_or_fail agent req.peer_id

abbrev pub remove_one : String → String → Exec (Unit {0})
remove_one agent peer w =
    (do
      modify_tables (delete_contact agent peer)
      commit_db
      raise_if (nat_eq (contact_count agent peer w.db.tables) 0) (http 404 "Contact not found"))
      w

unfoldable pub admin_remove_contact : Env → Option String → String → String → Exec (Unit {0})
admin_remove_contact env key agent peer = do check_admin env key; remove_one agent peer
