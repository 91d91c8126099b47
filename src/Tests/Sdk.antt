-- ===== src/Tests/Sdk.antt =====
-- A broker that has forgotten the tokens of an agent.
use claw_msg.Prelude.{
  ◌≡◌, refl, none, some, [], ◌∷◌, ℕ, ◌==◌, if◌then◌else◌, opt_eq, ◌+◌, none-ne-some,
}
use claw_msg.Table.{find_first}
use claw_msg.Prelude.Dict.{put}
use claw_msg.Json.{Json, str, object, field, end, get_field}
use claw_msg.Credentials.{
  entry, get_credentials, find_credentials, store_credentials, drop_stale, normalize_broker_url,
}
use claw_msg.Client.Http.{
  http_client, authorization_of, register_request, get_profile_request, list_rooms_request,
}
use claw_msg.Client.Calls.{request_error, runtime_error, returns, raises, Transport, text_at}
use claw_msg.Client.Agent.{
  AgentState, Host, logged_out, register, take_registration, request_json, with_reauth, http_call,
}
use claw_msg.Client.Agent.Methods.{new_agent, connect_or_register, from_credentials}
use claw_msg.Client.Agent.Reauth.{Carries, registered, refused_call_is_repeated}
use claw_msg.Client.Agent.LockedOut.{failed_registration_locks_out}
use claw_msg.Client.Agent.Again.{connect_or_register_twice}

abbrev identity : Json
identity = object (field "agent_id" (str "a2") (field "token" (str "t2") end))

-- A registration is answered with 201, a request with an old token with 401.
abbrev pub broker : Transport ℕ
broker r n =
    if r.path == "/agents/register"
    then (some (record { status = 201; body = identity }), n + 1)
    else (if opt_eq r.authorization "Bearer t2"
        then (some (record { status = 200; body = object end }), n + 1)
        else (some (record { status = 401; body = object end }), n + 1))

-- One that is not there for a registration.
abbrev half_broker : Transport ℕ
half_broker r n =
    if r.path == "/agents/register"
    then (none, n + 1)
    else (some (record { status = 401; body = object end }), n + 1)

abbrev host : Host ℕ
host = record {
  agent = record (new_agent "http://b" "alice") { token = some "t1"; agent_id = some "a1" };
  creds = some (("a1", entry "http://b" "a1" "t1" "alice") ∷ []);
  outside = 0;
}

carries : (send : Transport ℕ) → Carries send host.agent
unfolding new_agent
carries send c h = absurd (none-ne-some h)

refused_call_example :
    with_reauth broker (http_call broker (λ c. get_profile_request c)) host
    ≡ request_json broker
        (get_profile_request (http_client host.agent.broker_url "t2"))
        (registered broker (record (logged_out broker host) { outside = 2 }) "a2" "t2")
unfolding new_agent get_profile_request register_request authorization_of text_at get_field ◌==◌
refused_call_example =
    refused_call_is_repeated broker (λ c. get_profile_request c) host "t1" "a2" "t2"
      (some (record { status = 401; body = object end }))
      (some (record { status = 201; body = identity })) 1 2 identity refl refl (carries broker) refl
      refl refl refl refl refl

failed_registration_example :
    let after = with_reauth half_broker (http_call half_broker (λ c. get_profile_request c)) host in
    (after.0 ≡ raises request_error)
    × (get_credentials "a1" after.1.creds ≡ none)
    × (with_reauth half_broker (http_call half_broker (λ c. list_rooms_request c)) after.1
        ≡ (raises (runtime_error "Must register or provide a token"), after.1))
unfolding new_agent get_profile_request register_request ◌==◌
failed_registration_example =
    failed_registration_locks_out half_broker (λ c. get_profile_request c)
      (λ c. list_rooms_request c) host "t1" "a1" (some (record { status = 401; body = object end }))
      none 1 2 request_error refl refl (carries half_broker) refl refl refl refl refl refl

abbrev alice : AgentState
alice = record (new_agent "http://b/" "alice") {
  token = some "t2";
  agent_id = some "a2";
  http = some (http_client "http://b" "t2");
}

connect_twice_example :
    (b : AgentState) × (connect_or_register broker "http://b/" "alice" none "open"
        (some (("a2", entry "http://b" "a2" "t2" "alice") ∷ []))
        9
      ≡ (returns b, (some (("a2", entry "http://b" "a2" "t2" "alice") ∷ []), 9)))
    × (b.token ≡ some "t2")
    × (b.agent_id ≡ some "a2")
unfolding connect_or_register new_agent from_credentials find_credentials find_first register
    request_json take_registration text_at get_field store_credentials drop_stale put
    normalize_broker_url register_request authorization_of ◌==◌
connect_twice_example =
    connect_or_register_twice broker "http://b/" "alice" none none "contacts_only" "open" none
      (some (("a2", entry "http://b" "a2" "t2" "alice") ∷ [])) 0 1 9 alice refl
