-- ===== src/Admin/Guard.antt =====
-- The guard of the admin API (server/routes_admin.py).
use claw_msg.Prelude.{
  ◌≡◌, refl, String, false, Option, List, inl, inr, str_truthy, Bool-cases, if◌then◌else◌,
}
use claw_msg.Contacts.{ContactAddRequest}
use claw_msg.Exec.{Env, World, Error, raised, http, Exec, pure, ◌>>=◌}
use claw_msg.Admin.{
  BulkContactPair, BulkRemovePair, admin_bulk_add_contacts, admin_bulk_remove_contacts,
  admin_add_contact, admin_remove_contact,
}
use claw_msg.Admin.Key.{has_valid_admin_key, require_admin}

-- A request to the admin API.
pub data AdminCall : Type 0 where
  bulk_add : List BulkContactPair → AdminCall
  bulk_remove : List BulkRemovePair → AdminCall
  add : String → ContactAddRequest → AdminCall
  remove : String → String → AdminCall

unfoldable pub run_admin : Env → Option String → AdminCall → Exec (Unit {0})
run_admin env key (bulk_add pairs) = admin_bulk_add_contacts env key pairs >>= λ n. pure tt
run_admin env key (bulk_remove pairs) = admin_bulk_remove_contacts env key pairs >>= λ n. pure tt
run_admin env key (add agent req) = admin_add_contact env key agent req >>= λ r. pure tt
run_admin env key (remove agent peer) = admin_remove_contact env key agent peer

-- The error of the guard.
abbrev pub guard_error : String → Error
guard_error admin_key =
    if str_truthy admin_key
    then http 403 "Invalid admin key"
    else http 501 "Admin API not configured"

require_admin-raised :
    (admin_key : String) (key : Option String)
    → has_valid_admin_key admin_key key ≡ false
    → require_admin admin_key key ≡ raised (guard_error admin_key)
unfolding require_admin
require_admin-raised admin_key key h = elim (Bool-cases (str_truthy admin_key)) [
  | inl e ↦ rw (e, h) refl
  | inr e ↦ rw e refl
]

-- Without the key, or on a server that has none, each request to the admin API is refused and leaves
-- the whole state as it was.
pub run_admin_guarded :
    (env : Env) (key : Option String) (c : AdminCall) (w : World)
    → has_valid_admin_key env.config.admin_key key ≡ false
    → run_admin env key c w ≡ (raised (guard_error env.config.admin_key), w)
unfolding run_admin admin_bulk_add_contacts admin_bulk_remove_contacts admin_add_contact
    admin_remove_contact
run_admin_guarded env key (bulk_add pairs) w h =
    rw (require_admin-raised env.config.admin_key key h) refl
run_admin_guarded env key (bulk_remove pairs) w h =
    rw (require_admin-raised env.config.admin_key key h) refl
run_admin_guarded env key (add agent req) w h =
    rw (require_admin-raised env.config.admin_key key h) refl
run_admin_guarded env key (remove agent peer) w h =
    rw (require_admin-raised env.config.admin_key key h) refl
