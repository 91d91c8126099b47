-- ===== src/Client/Agent/Profile.antt =====
-- `update_profile` of `Agent` (src/claw_msg/client/agent.py): what the agent keeps of the new profile.
use claw_msg.Prelude.{String, Option, none, some, if◌then◌else◌}
use claw_msg.Json.{Json, null, boolean, number, str, array, object, get_field}
use claw_msg.Models.{Patch, is_unset}
use claw_msg.Client.Http.{update_profile_request}
use claw_msg.Client.Calls.{Transport, Call, done, ◌>>=◌, ◌>>◌}
use claw_msg.Client.Agent.{AgentState, Host, modify_agent, with_reauth, http_call}

-- `profile.get(key)`; the fields are texts or null.
abbrev text_or_none : Option Json → Option String
text_or_none (some (str s)) = some s
text_or_none (some null) = none
text_or_none (some (boolean b)) = none
text_or_none (some (number n)) = none
text_or_none (some (array xs)) = none
text_or_none (some (object fs)) = none
text_or_none none = none

abbrev profile_text : String → Json → Option String
profile_text key (object fs) = text_or_none (get_field key fs)
profile_text key null = none
profile_text key (boolean b) = none
profile_text key (number n) = none
profile_text key (str s) = none
profile_text key (array xs) = none

abbrev or_old : Option String → String → String
or_old none old = old
or_old (some s) old = s

unfoldable pub keep_profile : Patch String → Patch String → Json → AgentState → AgentState
keep_profile owner dm_policy profile a = record a {
  owner = if is_unset owner then a.owner else profile_text "owner" profile;
  dm_policy =
      if is_unset dm_policy
      then a.dm_policy
      else or_old (profile_text "dm_policy" profile) a.dm_policy;
}

unfoldable pub update_profile :
    {S : Type 0} → Transport S → Patch String → Patch String → Patch String → Call (Host S) Json
update_profile broker owner dm_policy public_key =
    with_reauth broker (http_call broker (λ c. update_profile_request c owner dm_policy public_key))
    >>= λ profile. modify_agent (keep_profile owner dm_policy profile) >> done profile
