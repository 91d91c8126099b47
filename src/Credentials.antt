-- ===== src/Credentials.antt =====
-- src/claw_msg/client/credentials.py: the agents that a host has registered, in one JSON file. The
-- state is what the file holds; a file that is no JSON object is not modelled.
pub mod Stored
use Prim.Native.Char.{code}
use claw_msg.Prelude.{
  String, Bool, true, false, not, ◌&&◌, Option, none, some, List, [], ◌∷◌, ◌==◌, nat_eq, opt_eq,
  if◌then◌else◌,
}
use claw_msg.Prelude.Dict.{Dict, get, put, remove}
use claw_msg.Table.{find_first}

-- An entry; `none` is a missing key.
pub record Credentials : Type 0 where
  pub agent_id : Option String
  pub broker_url : Option String
  pub token : Option String
  pub name : Option String

-- `none` is a file that does not exist.
abbrev pub CredsFile : Type 0
CredsFile = Option (Dict Credentials)

-- `_load`
abbrev pub load : CredsFile → Dict Credentials
load none = []
load (some entries) = entries

-- `_normalize_broker_url`: `rstrip("/")`
unfoldable pub normalize_broker_url : String → String
normalize_broker_url String.[] = String.[]
normalize_broker_url (String.◌∷◌ c s) =
    let rest = normalize_broker_url s in
    if nat_eq (code c) b'/' && (rest == "") then String.[] else String.◌∷◌ c rest

abbrev pub is_at : String → String → Credentials → Bool
is_at url name c = opt_eq c.broker_url url && opt_eq c.name name

-- Another agent of the same broker and name.
abbrev pub is_stale : String → String → String → String × Credentials → Bool
is_stale agent_id url name (k, c) = not (k == agent_id) && is_at url name c

-- The loop over the entries as they were.
unfoldable pub drop_stale :
    String → String → String → List (String × Credentials) → Dict Credentials → Dict Credentials
drop_stale agent_id url name [] entries = entries
drop_stale agent_id url name (e ∷ es) entries =
    drop_stale agent_id url name es
      (if is_stale agent_id url name e then remove entries e.0 else entries)

abbrev pub entry : String → String → String → String → Credentials
entry url agent_id token name = record {
  agent_id = some agent_id;
  broker_url = some url;
  token = some token;
  name = some name;
}

-- What the file holds afterwards.
unfoldable pub store_credentials : String → String → String → String → CredsFile → CredsFile
store_credentials broker_url agent_id token name file =
    let url = normalize_broker_url broker_url in
    some (
      put (drop_stale agent_id url name (load file) (load file)) agent_id
        (entry url agent_id token name))

unfoldable pub get_credentials : String → CredsFile → Option Credentials
get_credentials agent_id file = get (load file) agent_id

abbrev pub id_or : String → Option String → Option String
id_or k none = some k
id_or k (some i) = some i

-- The key stands in for an entry's missing `agent_id`.
abbrev pub with_key : Option (String × Credentials) → Option Credentials
with_key none = none
with_key (some (k, c)) = some (record c { agent_id = id_or k c.agent_id })

unfoldable pub find_credentials : String → String → CredsFile → Option Credentials
find_credentials broker_url name file =
    with_key (find_first (λ e. is_at (normalize_broker_url broker_url) name e.1) (load file))

unfoldable pub remove_credentials : String → CredsFile → CredsFile
remove_credentials agent_id file = some (remove (load file) agent_id)
