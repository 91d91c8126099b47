-- ===== src/Agents.antt =====
-- src/claw_msg/server/routes_agents.py: registration, profiles and search.
pub mod Profile
pub mod Search
pub mod Registered
pub mod Answered
pub mod Registration
pub mod Identity
pub mod Unforged
use claw_msg.Prelude.{
  ℕ, String, Bool, true, false, not, ◌&&◌, ◌||◌, Option, none, some, List, [], ◌∷◌, ◌++◌, ◌==◌,
  nat_eq, str_truthy, if◌then◌else◌,
}
use claw_msg.Json.{Json}
use claw_msg.Schema.{
  AgentRow, AgentStatus, offline, DmPolicy, TrustedIdentity, Tables, agent_is, has_agent,
}
use claw_msg.Table.{find_first, update_where, count_where}
use claw_msg.Models.{Patch, unset, nulled, given, is_unset, patched, patched_null}
use claw_msg.Auth.{Crypto, authenticate_token}
use claw_msg.Admin.Key.{has_valid_admin_key}
use claw_msg.Exec.{
  Env, sql_now, World, http, Result, ok, raised, Exec, pure, raise, raise_if, insert_row,
  modify_tables, commit_db, ◌>>=◌, ◌>>◌,
}

-- `TrustedIdentityInput`
pub record TrustedIdentityInput : Type 0 where
  pub kind : String
  pub account_id : String
  pub peer_id : String
  pub openclaw_agent_id : String

-- `AgentRegisterRequest` (common/models.py), as validated.
pub record AgentRegisterRequest : Type 0 where
  pub name : String
  pub owner : Option String
  pub existing_token : Option String
  pub capabilities : List String
  pub metadata : Json
  pub trusted_identity : Option Json
  pub is_application : Bool
  pub dm_policy : DmPolicy

pub record AgentRegisterResponse : Type 0 where
  pub agent_id : String
  pub token : String

pub record AgentProfile : Type 0 where
  pub id : String
  pub name : String
  pub owner : Option String
  pub capabilities : List String
  pub metadata : Json
  pub trusted_identity : Option TrustedIdentity
  pub is_application : Bool
  pub dm_policy : DmPolicy
  pub status : AgentStatus
  pub last_seen_at : Option ℕ
  pub public_key : Option String

pub record AgentUpdateRequest : Type 0 where
  pub owner : Patch String
  pub dm_policy : Patch DmPolicy
  pub public_key : Patch String

-- What the registration takes from outside: the hashes, the fresh token, and
-- `TrustedIdentityInput.model_validate` (`none` is a `ValidationError`).
pub record Issuer : Type 0 where
  pub crypto : Crypto
  pub token : String
  pub validate_identity : Json → Option TrustedIdentityInput

abbrev pub identity_of : Option TrustedIdentityInput → Result (Option TrustedIdentity)
identity_of none = raised (http 400 "Invalid trusted_identity payload")
identity_of (some parsed) =
    if parsed.kind == "kakao_peer"
    then ok (
        some (record {
          issuer = "openclaw-admin";
          kind = parsed.kind;
          account_id = parsed.account_id;
          peer_id = parsed.peer_id;
          openclaw_agent_id = parsed.openclaw_agent_id;
        }))
    else raised (http 400 "Unsupported trusted_identity kind")

-- `_build_trusted_identity`
unfoldable pub build_trusted_identity : Issuer → Option Json → Result (Option TrustedIdentity)
build_trusted_identity i none = ok none
build_trusted_identity i (some payload) = identity_of (i.validate_identity payload)

abbrev pub agent_profile : AgentRow → AgentProfile
agent_profile r = record {
  id = r.id;
  name = r.name;
  owner = r.owner;
  capabilities = r.capabilities;
  metadata = r.metadata;
  trusted_identity = r.trusted_identity;
  is_application = r.is_application;
  dm_policy = r.dm_policy;
  status = r.status;
  last_seen_at = r.last_seen_at;
  public_key = r.public_key;
}

-- `if req.existing_token: … authenticate_token`
abbrev pub existing_agent : Issuer → Option String → Tables → Option String
existing_agent i none t = none
existing_agent i (some token) t =
    if str_truthy token then authenticate_token i.crypto token t else none

abbrev pub identity_in : Option AgentRow → Option TrustedIdentity
identity_in none = none
identity_in (some r) = r.trusted_identity

abbrev pub known_identity : Option String → Tables → Option TrustedIdentity
known_identity none t = none
known_identity (some k) t =
    if str_truthy k then identity_in (find_first (agent_is k) t.agents) else none

-- Without the admin key a requested identity is passed over.
abbrev pub requested_identity :
    Issuer → Env → Option String → AgentRegisterRequest → Result (Option TrustedIdentity)
requested_identity i env key req =
    if has_valid_admin_key env.config.admin_key key
    then build_trusted_identity i req.trusted_identity
    else ok none

abbrev pub identity_eq : TrustedIdentity → TrustedIdentity → Bool
identity_eq a b =
    ((a.issuer == b.issuer) && (a.kind == b.kind))
    && ((a.account_id == b.account_id)
        && ((a.peer_id == b.peer_id) && (a.openclaw_agent_id == b.openclaw_agent_id)))

-- `final_trusted_identity`, or the conflict.
unfoldable pub final_identity :
    Option TrustedIdentity → Option TrustedIdentity → Result (Option TrustedIdentity)
final_identity none requested = ok requested
final_identity (some old) none = ok (some old)
final_identity (some old) (some new) =
    if identity_eq old new
    then ok (some new)
    else raised (http 409 "Trusted identity cannot be changed for an existing agent")

abbrev pub new_agent : Issuer → Env → AgentRegisterRequest → Option TrustedIdentity → AgentRow
new_agent i env req identity = record {
  id = env.uuid;
  name = req.name;
  owner = req.owner;
  capabilities = req.capabilities;
  metadata = req.metadata;
  trusted_identity = identity;
  token_hash = i.crypto.hash_token i.token;
  token_lookup = i.crypto.token_lookup_hash i.token;
  is_application = req.is_application;
  dm_policy = req.dm_policy;
  status = offline;
  last_seen_at = none;
  public_key = none;
  created_at = sql_now env;
}

abbrev pub or_else : Option String → Option String → Option String
or_else none old = old
or_else (some x) old = some x

-- The assignments of the `UPDATE`.
abbrev pub renewed : Issuer → AgentRegisterRequest → Option TrustedIdentity → AgentRow → AgentRow
renewed i req identity r = record r {
  name = req.name;
  owner = or_else req.owner r.owner;
  capabilities = req.capabilities;
  metadata = req.metadata;
  trusted_identity = identity;
  token_hash = i.crypto.hash_token i.token;
  token_lookup = i.crypto.token_lookup_hash i.token;
  is_application = req.is_application;
  dm_policy = req.dm_policy;
}

abbrev pub add_agent : AgentRow → Tables → Tables
add_agent r t = record t { agents = t.agents ++ r ∷ [] }

abbrev pub update_agent : String → (AgentRow → AgentRow) → Tables → Tables
update_agent k f t = record t { agents = update_where (agent_is k) f t.agents }

abbrev pub insert_agent : Issuer → Env → AgentRegisterRequest → Option TrustedIdentity → Exec String
insert_agent i env req identity = do
  insert_row (λ t. not (has_agent t env.uuid)) (add_agent (new_agent i env req identity))
  pure env.uuid

-- The `UPDATE` of a known agent, or the `INSERT`.
abbrev pub write_agent :
    Issuer → Env → AgentRegisterRequest → Option String → Option TrustedIdentity → Exec String
write_agent i env req none identity = insert_agent i env req identity
write_agent i env req (some k) identity =
    if str_truthy k
    then modify_tables (update_agent k (renewed i req identity)) >> pure k
    else insert_agent i env req identity

abbrev pub of_result : {A : Type 0} → Result A → Exec A
of_result r w = (r, w)

abbrev pub register_as :
    Issuer
    → Env
    → Option String
    → AgentRegisterRequest
    → Option String
    → Option TrustedIdentity
    → Exec AgentRegisterResponse
register_as i env key req existing old = do
  requested ← of_result (requested_identity i env key req)
  identity ← of_result (final_identity old requested)
  agent ← write_agent i env req existing identity
  commit_db
  pure (record { agent_id = agent; token = i.token })

-- `key` is the header `X-Admin-Key`.
unfoldable pub register_agent :
    Issuer → Env → Option String → AgentRegisterRequest → Exec AgentRegisterResponse
register_agent i env key req w =
    let existing = existing_agent i req.existing_token w.db.tables in
    register_as i env key req existing (known_identity existing w.db.tables) w
