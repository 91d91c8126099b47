-- ===== src/Client/Http.antt =====
-- src/claw_msg/client/http.py: the requests of `HttpClient`, each with the checks that shape it, and
-- what it makes of the reply. What carries a request to the broker is a parameter.
pub mod Payloads
pub mod Bearer
use Prim.Native.String.{◌++◌}
use claw_msg.Prelude.{
  ℕ, String, Bool, true, false, Option, none, some, List, [], ◌∷◌, truthy, leb, ltb, ◌&&◌, is_empty,
  if◌then◌else◌,
}
use claw_msg.Prelude.Int.{ℤ}
use claw_msg.Prelude.Dict.{Dict, put}
use claw_msg.Json.{Json}
use claw_msg.Models.{Patch, unset, nulled, given}
use claw_msg.Credentials.{normalize_broker_url}

-- What a body or a query holds.
pub data Value : Type 0 where
  null : Value
  text : String → Value
  integer : ℤ → Value
  flag : Bool → Value
  texts : List String → Value
  metadata : Json → Value

abbrev pub text_or_null : Option String → Value
text_or_null none = null
text_or_null (some s) = text s

pub data Method : Type 0 where
  get_method post_method patch_method delete_method : Method

pub record Request : Type 0 where
  pub method : Method
  pub base_url : String
  pub path : String
  pub authorization : Option String
  pub params : Dict Value
  pub json : Option (Dict Value)

-- `_base` and `_headers` of an `HttpClient`; `_client` is the transport.
pub record HttpClient : Type 0 where
  pub base : String
  pub authorization : String

unfoldable pub authorization_of : String → String
authorization_of token = "Bearer " ++ token

abbrev pub http_client : String → String → HttpClient
http_client broker_url token = record {
  base = normalize_broker_url broker_url;
  authorization = authorization_of token;
}

abbrev with_headers : HttpClient → Method → String → Dict Value → Option (Dict Value) → Request
with_headers c method path params json = record {
  method = method;
  base_url = c.base;
  path = path;
  authorization = some c.authorization;
  params = params;
  json = json;
}

-- What `Agent` registers with.
pub record Registration : Type 0 where
  pub name : String
  pub owner : Option String
  pub existing_token : Option String
  pub capabilities : List String
  pub metadata : Json
  pub is_application : Bool
  pub dm_policy : String

unfoldable pub register_request : HttpClient → Registration → Request
register_request c r =
    record (with_headers c post_method "/agents/register" [] (
      some (
        ("name", text r.name)
        ∷ ("owner", text_or_null r.owner)
        ∷ ("existing_token", text_or_null r.existing_token)
        ∷ ("capabilities", texts r.capabilities)
        ∷ ("metadata", metadata r.metadata)
        ∷ ("is_application", flag r.is_application)
        ∷ ("dm_policy", text r.dm_policy)
        ∷ []))) { authorization = none }

pub record Sending : Type 0 where
  pub to : Option String
  pub room_id : Option String
  pub content : String
  pub content_type : String
  pub reply_to : Option String

unfoldable pub send_message_request : HttpClient → Sending → Request
send_message_request c m = with_headers c post_method "/messages/" [] (
    some (
      ("to", text_or_null m.to)
      ∷ ("room_id", text_or_null m.room_id)
      ∷ ("content", text m.content)
      ∷ ("content_type", text m.content_type)
      ∷ ("reply_to", text_or_null m.reply_to)
      ∷ []))

-- `if x: params[key] = x`
abbrev put_truthy : String → Option String → Dict Value → Dict Value
put_truthy key o d = if truthy o then put d key (text_or_null o) else d

unfoldable pub get_messages_request : HttpClient → Option String → ℤ → Option String → Request
get_messages_request c since limit peer =
    with_headers c get_method "/messages/"
      (put_truthy "peer" peer (put_truthy "since" since (("limit", integer limit) ∷ []))) none

unfoldable pub get_profile_request : HttpClient → Request
get_profile_request c = with_headers c get_method "/agents/me" [] none

-- `if x is not _UNSET: payload[key] = x`
abbrev pub put_set : String → Patch String → Dict Value → Dict Value
put_set key unset d = d
put_set key nulled d = put d key null
put_set key (given s) d = put d key (text s)

unfoldable pub profile_payload : Patch String → Patch String → Patch String → Dict Value
profile_payload owner dm_policy public_key =
    put_set "public_key" public_key (put_set "dm_policy" dm_policy (put_set "owner" owner []))

unfoldable pub update_profile_request :
    HttpClient → Patch String → Patch String → Patch String → Request
update_profile_request c owner dm_policy public_key =
    let payload = profile_payload owner dm_policy public_key in
    if is_empty payload
    then get_profile_request c
    else with_headers c patch_method "/agents/me" [] (some payload)

unfoldable pub search_agents_request : HttpClient → Option String → Option String → Request
search_agents_request c name capability =
    with_headers c get_method "/agents/"
      (put_truthy "capability" capability (put_truthy "name" name [])) none

unfoldable pub create_room_request : HttpClient → String → String → ℤ → Request
create_room_request c name description max_members = with_headers c post_method "/rooms/" [] (
    some (
      ("name", text name)
      ∷ ("description", text description)
      ∷ ("max_members", integer max_members)
      ∷ []))

abbrev pub list_rooms_request : HttpClient → Request
list_rooms_request c = with_headers c get_method "/rooms/" [] none

unfoldable pub join_room_request : HttpClient → String → Request
join_room_request c room_id = with_headers c post_method ("/rooms/" ++ (room_id ++ "/join")) [] none

unfoldable pub leave_room_request : HttpClient → String → Request
leave_room_request c room_id =
    with_headers c post_method ("/rooms/" ++ (room_id ++ "/leave")) [] none

-- `tags or []`
abbrev tags_or_none : Option (List String) → List String
tags_or_none none = []
tags_or_none (some tags) = tags

pub record ContactAdd : Type 0 where
  pub peer_id : String
  pub alias : String
  pub tags : Option (List String)
  pub notes : String
  pub met_via : String

unfoldable pub add_contact_request : HttpClient → ContactAdd → Request
add_contact_request c a = with_headers c post_method "/contacts/" [] (
    some (
      ("peer_id", text a.peer_id)
      ∷ ("alias", text a.alias)
      ∷ ("tags", texts (tags_or_none a.tags))
      ∷ ("notes", text a.notes)
      ∷ ("met_via", text a.met_via)
      ∷ []))

-- `if x is not None: payload[key] = x`
abbrev pub put_given : String → Option Value → Dict Value → Dict Value
put_given key none d = d
put_given key (some v) d = put d key v

abbrev pub option_map : {A : Type 0} → (A → Value) → Option A → Option Value
option_map f none = none
option_map f (some a) = some (f a)

unfoldable pub contact_payload :
    Option String → Option (List String) → Option String → Option String → Dict Value
contact_payload alias tags notes met_via = put_given "met_via" (option_map text met_via) (
    put_given "notes" (option_map text notes)
      (put_given "tags" (option_map texts tags) (put_given "alias" (option_map text alias) [])))

unfoldable pub update_contact_request :
    HttpClient
    → String
    → Option String
    → Option (List String)
    → Option String
    → Option String
    → Request
update_contact_request c peer_id alias tags notes met_via =
    with_headers c patch_method ("/contacts/" ++ peer_id) []
      (some (contact_payload alias tags notes met_via))

abbrev pub list_contacts_request : HttpClient → Request
list_contacts_request c = with_headers c get_method "/contacts/" [] none

unfoldable pub remove_contact_request : HttpClient → String → Request
remove_contact_request c peer_id = with_headers c delete_method ("/contacts/" ++ peer_id) [] none
