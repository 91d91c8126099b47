-- ===== src/Client/Agent.antt =====
-- src/claw_msg/client/agent.py: what an `Agent` holds and how it registers, logs in again and sends.
-- The broker that it talks to is a parameter, and so are the other tasks of the process, which run
-- while a request does.
pub mod Methods
pub mod Profile
pub mod Lifecycle
pub mod Again
pub mod Reauth
pub mod LockedOut
use claw_msg.Prelude.{
  ℕ, String, Bool, true, false, Option, none, some, List, [], ◌∷◌, leb, nat_eq, ◌&&◌, if◌then◌else◌,
  truthy, opt_eq, not,
}
use claw_msg.Json.{Json}
use claw_msg.Credentials.{
  CredsFile, Credentials, normalize_broker_url, store_credentials, remove_credentials,
}
use claw_msg.Client.Calls.{
  http_status_error, request_error, key_error, type_error, runtime_error, value_error, Outcome,
  returns, raises, Transport, Call, done, fail, ◌>>=◌, ◌>>◌, json_of, text_at,
}
use claw_msg.Client.Http.{HttpClient, Request, Sending, Registration, http_client, register_request}

-- A connection as the agent sees it: whether it is up, and what it was given to send.
pub record Link : Type 0 where
  pub connected : Bool
  pub sent : List Sending

pub record AgentState : Type 0 where
  pub broker_url : String
  pub name : String
  pub owner : Option String
  pub capabilities : List String
  pub metadata : Json
  pub dm_policy : String
  pub is_application : Bool
  pub token : Option String
  pub agent_id : Option String
  pub connection : Option Link
  pub http : Option HttpClient

-- The agent, the credentials of its host, and the outside: the broker and all else.
pub record Host (S : Type 0) : Type 0 where
  pub agent : AgentState
  pub creds : CredsFile
  pub outside : S

module _ {S : Type 0} where
  abbrev pub modify_agent : (AgentState → AgentState) → Call (Host S) (Unit {0})
  modify_agent f w = (returns tt, record w { agent = f w.agent })

  abbrev pub modify_creds : (CredsFile → CredsFile) → Call (Host S) (Unit {0})
  modify_creds f w = (returns tt, record w { creds = f w.creds })

-- What a new `Agent` holds.
abbrev pub registration_of : AgentState → Option String → Registration
registration_of a reuse_token = record {
  name = a.name;
  owner = a.owner;
  existing_token = reuse_token;
  capabilities = a.capabilities;
  metadata = a.metadata;
  is_application = a.is_application;
  dm_policy = a.dm_policy;
}

-- `self._token if existing_token is None else existing_token`
abbrev pub or_own : Option String → Option String → Option String
or_own none own = own
or_own (some t) own = some t

module _ {S : Type 0} (send : Transport S) where
  unfoldable pub request_json : Request → Call (Host S) Json
  request_json r w = let (o, s) = send r w.outside in (json_of o, record w { outside = s })

  -- From the reply of the broker on.
  unfoldable pub take_registration : Json → Call (Host S) String
  take_registration result = (λ w. (text_at "agent_id" result, w)) >>= λ id.
      modify_agent (λ a. record a { agent_id = some id })
      >> (λ w. (text_at "token" result, w))
      >>= λ t.
          modify_agent (λ a. record a { token = some t; http = some (http_client a.broker_url t) })
          >> (λ w. modify_creds (store_credentials w.agent.broker_url id t w.agent.name) w)
          >> done id

  unfoldable pub register : Option String → Call (Host S) String
  register existing_token w =
      let reuse_token = or_own existing_token w.agent.token in
      (request_json (
            register_request (http_client w.agent.broker_url "")
              (registration_of w.agent reuse_token))
          >>= take_registration)
        w

  -- `if stale_agent_id: remove_credentials(stale_agent_id)`
  abbrev pub forget_credentials : Option String → CredsFile → CredsFile
  forget_credentials none file = file
  forget_credentials (some id) file = if truthy (some id) then remove_credentials id file else file

  -- The state in which the agent registers anew.
  abbrev pub logged_out : Host S → Host S
  logged_out w = record w {
    agent = record w.agent { connection = none; http = none; token = none; agent_id = none };
    creds = forget_credentials w.agent.agent_id w.creds;
  }

  -- `failed_token is not None and self._token != failed_token`
  abbrev pub is_renewed : Option String → Option String → Bool
  is_renewed none token = false
  is_renewed (some failed) token = not (opt_eq token failed)

  unfoldable pub reauthenticate : Option String → Call (Host S) (Unit {0})
  reauthenticate failed_token w = elim (is_renewed failed_token w.agent.token) [
    | true ↦ (returns tt, w)
    | false ↦ (register failed_token >>= λ id. done tt) (logged_out w)
  ]

  abbrev pub is_401 : {A : Type 0} → Outcome A → Bool
  is_401 (returns a) = false
  is_401 (raises (http_status_error code)) = nat_eq code 401
  is_401 (raises request_error) = false
  is_401 (raises key_error) = false
  is_401 (raises type_error) = false
  is_401 (raises (runtime_error s)) = false
  is_401 (raises (value_error s)) = false

  -- After the first call: a refused one is made again.
  abbrev pub resume :
      {A : Type 0} → Call (Host S) A → Option String → Bool → Outcome A → Call (Host S) A
  resume operation failed_token true r w = (reauthenticate failed_token >> operation) w
  resume operation failed_token false r w = (r, w)

  unfoldable pub with_reauth : {A : Type 0} → Call (Host S) A → Call (Host S) A
  with_reauth operation w =
      let (r, w') = operation w in resume operation w.agent.token (is_401 r) r w'

  -- `if not self._token`
  abbrev pub new_client : Option String → Call (Host S) HttpClient
  new_client none w = fail (runtime_error "Must register or provide a token") w
  new_client (some t) w =
      if truthy (some t)
      then (
        returns (http_client w.agent.broker_url t),
        record w { agent = record w.agent { http = some (http_client w.agent.broker_url t) } },
      )
      else fail (runtime_error "Must register or provide a token") w

  -- The client that is there, or a new one with the token.
  abbrev pub client_of : Option HttpClient → Call (Host S) HttpClient
  client_of none w = new_client w.agent.token w
  client_of (some c) w = done c w

  -- `_get_http`
  unfoldable pub get_http : Call (Host S) HttpClient
  get_http w = client_of w.agent.http w

  -- `lambda: self._get_http().f(…)`
  unfoldable pub http_call : (HttpClient → Request) → Call (Host S) Json
  http_call f = get_http >>= λ c. request_json (f c)
