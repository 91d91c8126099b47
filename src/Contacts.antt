-- ===== src/Contacts.antt =====
-- src/claw_msg/server/routes_contacts.py: the contacts of an agent. An agent that takes messages from
-- contacts alone is reached by those that it has added here.
pub mod Adding
pub mod Removing
use claw_msg.Prelude.{
  ℕ, String, Bool, true, false, not, ◌&&◌, ◌||◌, Option, none, some, List, [], ◌∷◌, ◌++◌, ◌==◌,
  filter, nat_eq, if◌then◌else◌,
}
use claw_msg.Schema.{
  AgentRow, AgentStatus, ContactRow, Tables, agent_is, contact_is, contact_refers, has_contact,
}
use claw_msg.Table.{find_first, update_where, delete_where, count_where, order_by}
use claw_msg.OfflineQueue.{cons_some}
use claw_msg.Models.{Patch, unset, nulled, given, is_unset, is_nulled, patched, patched_null}
use claw_msg.Exec.{
  Env, sql_now, World, http, integrity_error, validation_error, Result, ok, raised, Exec, pure,
  raise, raise_if, insert_row, modify_tables, commit_db, gets, ◌>>=◌, ◌>>◌,
}

-- `ContactAddRequest`, `ContactUpdateRequest` and `ContactResponse` (common/models.py), as validated.
pub record ContactAddRequest : Type 0 where
  pub peer_id : String
  pub alias : String
  pub tags : List String
  pub notes : String
  pub met_via : String

pub record ContactUpdateRequest : Type 0 where
  pub alias : Patch String
  pub tags : Patch (List String)
  pub notes : Patch String
  pub met_via : Patch String

pub record ContactResponse : Type 0 where
  pub peer_id : String
  pub alias : String
  pub tags : List String
  pub notes : String
  pub met_via : String
  pub peer_name : String
  pub peer_status : AgentStatus
  pub added_at : ℕ

-- A null tag list does not fit the model of the reply.
abbrev pub with_tags : ContactRow → AgentRow → Option (List String) → Result ContactResponse
with_tags c a none = raised validation_error
with_tags c a (some tags) = ok (record {
  peer_id = c.peer_id;
  alias = c.alias;
  tags = tags;
  notes = c.notes;
  met_via = c.met_via;
  peer_name = a.name;
  peer_status = a.status;
  added_at = c.added_at;
})

unfoldable pub contact_response : ContactRow × AgentRow → Result ContactResponse
contact_response (c, a) = with_tags c a c.tags

-- `JOIN agents a ON a.id = c.peer_id`
abbrev pub with_agent : Option AgentRow → ContactRow → Option (ContactRow × AgentRow)
with_agent none c = none
with_agent (some a) c = some (c, a)

abbrev pub joined : Tables → ContactRow → Option (ContactRow × AgentRow)
joined t c = with_agent (find_first (agent_is c.peer_id) t.agents) c

abbrev pub joined_row : Tables → Option ContactRow → Option (ContactRow × AgentRow)
joined_row t none = none
joined_row t (some c) = joined t c

unfoldable pub get_contact_row : Tables → String → String → Option (ContactRow × AgentRow)
get_contact_row t agent peer = joined_row t (find_first (contact_is agent peer) t.contacts)

abbrev pub contact_row : Env → String → ContactAddRequest → ContactRow
contact_row env agent req = record {
  agent_id = agent;
  peer_id = req.peer_id;
  alias = req.alias;
  tags = some req.tags;
  notes = req.notes;
  met_via = req.met_via;
  added_at = sql_now env;
}

abbrev pub add_row : ContactRow → Tables → Tables
add_row r t = record t { contacts = t.contacts ++ r ∷ [] }

-- `excluded`: the new values, and the old `added_at`.
abbrev pub overwrite : ContactAddRequest → ContactRow → ContactRow
overwrite req c = record c {
  alias = req.alias;
  tags = some req.tags;
  notes = req.notes;
  met_via = req.met_via;
}

abbrev pub overwrite_row : String → ContactAddRequest → Tables → Tables
overwrite_row agent req t = record t {
  contacts = update_where (contact_is agent req.peer_id) (overwrite req) t.contacts;
}

-- `INSERT … ON CONFLICT(agent_id, peer_id) DO UPDATE`
abbrev pub upsert : Env → String → ContactAddRequest → Exec (Unit {0})
upsert env agent req w =
    if has_contact w.db.tables agent req.peer_id
    then modify_tables (overwrite_row agent req) w
    else insert_row (λ t. contact_refers t (contact_row env agent req))
        (add_row (contact_row env agent req)) w

abbrev pub response_or : ℕ → String → Option (ContactRow × AgentRow) → Result ContactResponse
response_or code detail none = raised (http code detail)
response_or code detail (some row) = contact_response row

abbrev pub load_contact : String → String → ℕ → String → Exec ContactResponse
load_contact agent peer code detail w =
    (response_or code detail (get_contact_row w.db.tables agent peer), w)

abbrev pub peer_or_404 : Option AgentRow → Result (Unit {0})
peer_or_404 none = raised (http 404 "Peer agent not found")
peer_or_404 (some a) = ok tt

abbrev pub check_peer : String → Exec (Unit {0})
check_peer peer w = (peer_or_404 (find_first (agent_is peer) w.db.tables.agents), w)

unfoldable pub add_contact : Env → ContactAddRequest → String → Exec ContactResponse
add_contact env req agent = do
  raise_if (req.peer_id == agent) (http 400 "Cannot add yourself as a contact")
  check_peer req.peer_id
  upsert env agent req
  commit_db
  load_contact agent req.peer_id 500 "Failed to load saved contact"

abbrev pub is_of : String → ContactRow → Bool
is_of agent c = c.agent_id == agent

abbrev pub added : ContactRow → ℕ
added c = c.added_at

unfoldable pub join_peers : Tables → List ContactRow → List (ContactRow × AgentRow)
join_peers t [] = []
join_peers t (c ∷ cs) = cons_some (joined t c) (join_peers t cs)

-- The list of the replies; one that fails is the error of the whole.
abbrev pub cons_ok : {A : Type 0} → Result A → Result (List A) → Result (List A)
cons_ok (raised x) rs = raised x
cons_ok (ok r) (raised x) = raised x
cons_ok (ok r) (ok rs) = ok (r ∷ rs)

unfoldable pub contact_responses : List (ContactRow × AgentRow) → Result (List ContactResponse)
contact_responses [] = ok []
contact_responses (row ∷ rows) = cons_ok (contact_response row) (contact_responses rows)

unfoldable pub list_contacts : Tables → String → Result (List ContactResponse)
list_contacts t agent =
    contact_responses (join_peers t (order_by added (filter (is_of agent) t.contacts)))

abbrev pub is_empty_patch : ContactUpdateRequest → Bool
is_empty_patch u = (is_unset u.alias && is_unset u.tags) && (is_unset u.notes && is_unset u.met_via)

-- Null tags are stored as the text `null`; the other columns are `NOT NULL`.
abbrev pub breaks_not_null : ContactUpdateRequest → Bool
breaks_not_null u = is_nulled u.alias || (is_nulled u.notes || is_nulled u.met_via)

abbrev pub patch_row : ContactUpdateRequest → ContactRow → ContactRow
patch_row u c = record c {
  alias = patched u.alias c.alias;
  tags = patched_null u.tags c.tags;
  notes = patched u.notes c.notes;
  met_via = patched u.met_via c.met_via;
}

abbrev pub patch_rows : String → String → ContactUpdateRequest → Tables → Tables
patch_rows agent peer u t = record t {
  contacts = update_where (contact_is agent peer) (patch_row u) t.contacts;
}

abbrev pub apply_patch : String → String → ContactUpdateRequest → Exec ContactResponse
apply_patch agent peer u = do
  raise_if (breaks_not_null u) integrity_error
  modify_tables (patch_rows agent peer u)
  commit_db
  load_contact agent peer 500 "Failed to load updated contact"

abbrev pub update_found :
    String → String → ContactUpdateRequest → Option (ContactRow × AgentRow) → Exec ContactResponse
update_found agent peer u none w = (raised (http 404 "Contact not found"), w)
update_found agent peer u (some row) w =
    if is_empty_patch u then (contact_response row, w) else apply_patch agent peer u w

unfoldable pub update_contact : String → ContactUpdateRequest → String → Exec ContactResponse
update_contact peer u agent w = update_found agent peer u (get_contact_row w.db.tables agent peer) w

abbrev pub delete_contact : String → String → Tables → Tables
delete_contact agent peer t = record t {
  contacts = delete_where (contact_is agent peer) t.contacts;
}

-- The number of the rows that a `DELETE` finds is its `rowcount`.
abbrev pub contact_count : String → String → Tables → ℕ
contact_count agent peer t = count_where (contact_is agent peer) t.contacts

unfoldable pub remove_contact : String → String → Exec (Unit {0})
remove_contact peer agent w =
    (do
      modify_tables (delete_contact agent peer)
      commit_db
      raise_if (nat_eq (contact_count agent peer w.db.tables) 0) (http 404 "Contact not found"))
      w
