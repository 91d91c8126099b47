-- ===== src/Cli/ContactAdd.antt =====
-- `contacts add` (src/claw_msg/cli/main.py): a peer by its id or by its name.
use Prim.Native.String.{◌++◌}
use claw_msg.Prelude.{
  String, Bool, true, false, not, ◌&&◌, Option, none, some, List, [], ◌∷◌, ◌==◌, truthy, str_truthy,
  if◌then◌else◌,
}
use claw_msg.Json.{
  Json, null, boolean, number, str, array, object, Items, nil, cons, Fields, get_field, get_or,
}
use claw_msg.Credentials.{CredsFile}
use claw_msg.Client.Connection.{fields_of}
use claw_msg.Client.Calls.{
  type_error, Outcome, returns, raises, Transport, Call, done, ◌>>=◌, text_at,
}
use claw_msg.Client.Agent.{Host}
use claw_msg.Client.Agent.Methods.{search_agents, add_contact}
use claw_msg.Cli.Commands.{Printer, agent_with}

-- `a.get("name", "").lower() == peer_name.lower()`
abbrev name_matches : (String → String) → String → Json → Outcome Bool
name_matches lower name null = raises type_error
name_matches lower name (boolean b) = raises type_error
name_matches lower name (number n) = raises type_error
name_matches lower name (str s) = returns (lower s == lower name)
name_matches lower name (array xs) = raises type_error
name_matches lower name (object fs) = raises type_error

abbrev pub result_named : (String → String) → String → Option Fields → Outcome Bool
result_named lower name none = raises type_error
result_named lower name (some fs) = name_matches lower name (get_or (get_field "name" fs) (str ""))

abbrev pub keep_if : Outcome Bool → Json → Outcome (List Json) → Outcome (List Json)
keep_if (raises e) a rest = raises e
keep_if (returns b) a (raises e) = raises e
keep_if (returns true) a (returns rest) = returns (a ∷ rest)
keep_if (returns false) a (returns rest) = returns rest

-- The comprehension over the results of the search.
unfoldable pub exact_matches : (String → String) → String → Items → Outcome (List Json)
exact_matches lower name nil = returns []
exact_matches lower name (cons a items) =
    keep_if (result_named lower name (fields_of a)) a (exact_matches lower name items)

abbrev pub exact_in : (String → String) → String → Json → Outcome (List Json)
exact_in lower name null = raises type_error
exact_in lower name (boolean b) = raises type_error
exact_in lower name (number n) = raises type_error
exact_in lower name (str s) = raises type_error
exact_in lower name (array items) = exact_matches lower name items
exact_in lower name (object fs) = raises type_error

-- How the command ends: with its lines, with a text on the error output and the status 1, or with a
-- usage error.
pub data AddEnd : Type 0 where
  contact_added : List String → AddEnd
  exits : String → AddEnd
  usage_error : String → AddEnd

abbrev pub quoted : String → String
quoted name = "'" ++ (name ++ "'")

-- `alias or peer_name or ""`
abbrev pub alias_or : String → Option String → String
alias_or alias none = alias
alias_or alias (some name) = if str_truthy alias then alias else name

abbrev text_or_empty : Option String → String
text_or_empty none = ""
text_or_empty (some s) = s

module _ {S : Type 0} (broker : Transport S) (p : Printer) (lower : String → String) where
  abbrev added_lines : String → String → Option Fields → Outcome AddEnd
  added_lines id alias none = raises type_error
  added_lines id alias (some fs) = returns (
      contact_added (
        ("Added: "
          ++ (id
              ++ (" ("
                  ++ (p.show (get_or (get_field "peer_name" fs) (str ""))
                      ++ (")" ++ (if str_truthy alias then " alias=" ++ alias else ""))))))
        ∷ []))

  unfoldable pub add_resolved : String → String → Call (Host S) AddEnd
  add_resolved id alias =
      add_contact broker
        (record { peer_id = id; alias = alias; tags = none; notes = ""; met_via = "" })
      >>= λ r w. (added_lines id alias (fields_of r), w)

  -- What the search has found under the name.
  abbrev pub choose : String → String → List Json → Call (Host S) AddEnd
  choose name alias [] = done (exits ("Error: No agent found with name " ++ quoted name))
  choose name alias (a ∷ []) = (λ w. (text_at "id" a, w)) >>= λ id. add_resolved id alias
  choose name alias (a ∷ b ∷ more) =
      done (exits ("Error: Multiple agents found with name " ++ quoted name))

  unfoldable pub add_by_name : String → String → Call (Host S) AddEnd
  add_by_name name alias = search_agents broker (some name) none >>= λ results.
      (λ w. (exact_in lower name results, w)) >>= λ exact. choose name alias exact

  -- The checks of the options, and the command after them.
  abbrev pub add_given : Option String → Option String → String → Call (Host S) AddEnd
  add_given id name alias =
      if not (truthy id) && not (truthy name)
      then done (usage_error "Must specify --peer-id or --peer-name")
      else (if truthy id && truthy name
          then done (usage_error "Specify --peer-id or --peer-name, not both")
          else (if truthy name
              then add_by_name (text_or_empty name) (alias_or alias name)
              else add_resolved (text_or_empty id) (alias_or alias name)))

  unfoldable pub contact_add :
      String
      → String
      → Option String
      → Option String
      → String
      → CredsFile
      → S
      → Outcome AddEnd × (CredsFile × S)
  contact_add broker_url token peer_id peer_name alias file s =
      let (r, w) =
        add_given peer_id peer_name alias
          (record { agent = agent_with broker_url token; creds = file; outside = s }) in
      (r, (w.creds, w.outside))
