-- ===== src/Agents/Profile.antt =====
-- The profiles and their update (src/claw_msg/server/routes_agents.py).
use claw_msg.Prelude.{ℕ, String, Bool, ◌&&◌, Option, none, some, nat_eq, if◌then◌else◌}
use claw_msg.Schema.{AgentRow, Tables, agent_is}
use claw_msg.Table.{find_first, count_where}
use claw_msg.Models.{Patch, unset, nulled, given, is_unset, patched, patched_null}
use claw_msg.Exec.{http, Result, ok, raised, Exec, pure, raise_if, modify_tables, commit_db, ◌>>◌}
use claw_msg.Agents.{AgentProfile, AgentUpdateRequest, agent_profile, update_agent}

abbrev pub profile_or_404 : Option AgentRow → Result AgentProfile
profile_or_404 none = raised (http 404 "Agent not found")
profile_or_404 (some r) = ok (agent_profile r)

unfoldable pub get_agent_profile : Tables → String → Result AgentProfile
get_agent_profile t k = profile_or_404 (find_first (agent_is k) t.agents)

abbrev pub get_my_profile : Tables → String → Result AgentProfile
get_my_profile t k = get_agent_profile t k

-- A null policy is dropped.
abbrev pub given_or_unset : {A : Type 0} → Patch A → Patch A
given_or_unset unset = unset
given_or_unset nulled = unset
given_or_unset (given x) = given x

abbrev pub patch_agent : AgentUpdateRequest → AgentRow → AgentRow
patch_agent u r = record r {
  owner = patched_null u.owner r.owner;
  dm_policy = patched (given_or_unset u.dm_policy) r.dm_policy;
  public_key = patched_null u.public_key r.public_key;
}

abbrev pub no_updates : AgentUpdateRequest → Bool
no_updates u = is_unset u.owner && (is_unset (given_or_unset u.dm_policy) && is_unset u.public_key)

abbrev pub agent_count : String → Tables → ℕ
agent_count k t = count_where (agent_is k) t.agents

abbrev pub write_updates : AgentUpdateRequest → String → Exec (Unit {0})
write_updates u k w =
    (do
      modify_tables (update_agent k (patch_agent u))
      commit_db
      raise_if (nat_eq (agent_count k w.db.tables) 0) (http 404 "Agent not found"))
      w

unfoldable pub update_my_profile : AgentUpdateRequest → String → Exec AgentProfile
update_my_profile u k = do
  (if no_updates u then pure tt else write_updates u k)
  (λ w. (get_agent_profile w.db.tables k, w))
