-- ===== src/Tests/Agents.antt =====
-- Registrations.
use claw_msg.Prelude.{◌≡◌, refl, ◌==◌, false, none, some, [], ◌∷◌}
use claw_msg.Json.{object, end}
use claw_msg.Schema.{TrustedIdentity, open_policy, commit}
use claw_msg.Table.{find_first, update_where}
use claw_msg.Auth.{authenticate_token}
use claw_msg.Exec.{World, ok}
use claw_msg.Admin.Key.{has_valid_admin_key}
use claw_msg.Agents.{
  Issuer, AgentRegisterRequest, AgentRegisterResponse, register_agent, final_identity,
}
use claw_msg.Agents.Identity.{HasIdentity, register_agent_keeps_identity}
use claw_msg.Agents.Unforged.{register_agent_makes_no_identity}
use claw_msg.Tests.Sample.{env, world, tables, agent_row}
use claw_msg.Tests.Ws.{crypto}

abbrev issuer : Issuer
issuer = record { crypto = crypto; token = "fresh"; validate_identity = λ j. none }

abbrev request : AgentRegisterRequest
request = record {
  name = "alice2";
  owner = none;
  existing_token = some "secret";
  capabilities = [];
  metadata = object end;
  trusted_identity = none;
  is_application = false;
  dm_policy = open_policy;
}

abbrev peer_identity : TrustedIdentity
peer_identity = record {
  issuer = "openclaw-admin";
  kind = "kakao_peer";
  account_id = "x";
  peer_id = "y";
  openclaw_agent_id = "z";
}

-- An agent with a token and an identity.
abbrev known : World
known = record world {
  db = record world.db {
    tables = record tables {
      agents =
          record (agent_row "d1" "dora" open_policy) {
            token_hash = "secret";
            token_lookup = "secret";
            trusted_identity = some peer_identity;
          }
          ∷ tables.agents;
    };
  };
}

abbrev answer : AgentRegisterResponse
answer = record { agent_id = "d1"; token = "fresh" }

abbrev after : World
after = (register_agent issuer env none request known).1

returns : register_agent issuer env none request known ≡ (ok answer, after)
unfolding register_agent authenticate_token find_first has_valid_admin_key final_identity commit
    update_where ◌==◌
returns = refl

known_has : HasIdentity known.db.tables "d1" peer_identity
unfolding find_first ◌==◌
known_has = (_, refl, refl)

keeps_identity_example : HasIdentity after.db.tables "d1" peer_identity
keeps_identity_example =
    register_agent_keeps_identity issuer env none request known "d1" peer_identity returns known_has

no_key : has_valid_admin_key env.config.admin_key none ≡ false
unfolding has_valid_admin_key
no_key = refl

after_has : HasIdentity after.db.tables "d1" peer_identity
after_has =
    register_agent_keeps_identity issuer env none request known "d1" peer_identity returns known_has

makes_no_identity_example : HasIdentity known.db.tables "d1" peer_identity
makes_no_identity_example =
    register_agent_makes_no_identity issuer env none request known "d1" peer_identity no_key returns
      after_has
