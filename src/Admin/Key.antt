-- ===== src/Admin/Key.antt =====
-- The key of the admin API (src/claw_msg/server/routes_admin.py).
use claw_msg.Prelude.{
  String, Bool, false, ◌&&◌, Option, none, some, ◌==◌, str_truthy, if◌then◌else◌,
}
use claw_msg.Exec.{Result, ok, raised, http}

-- `x_admin_key`, where it is given.
unfoldable pub has_valid_admin_key : String → Option String → Bool
has_valid_admin_key admin_key none = false
has_valid_admin_key admin_key (some key) =
    str_truthy admin_key && (str_truthy key && (key == admin_key))

-- `_require_admin`
unfoldable pub require_admin : String → Option String → Result (Unit {0})
require_admin admin_key key =
    if str_truthy admin_key
    then (if has_valid_admin_key admin_key key
        then ok tt
        else raised (http 403 "Invalid admin key"))
    else raised (http 501 "Admin API not configured")
