-- ===== src/Presence.antt =====
-- src/claw_msg/server/presence.py.
use claw_msg.Prelude.{ℕ, String, Option, none, some}
use claw_msg.Schema.{AgentRow, AgentStatus, online, offline, Tables, Db, commit, agent_is}
use claw_msg.Table.{find_first, update_where}

abbrev pub seen : AgentStatus → ℕ → AgentRow → AgentRow
seen s now r = record r { status = s; last_seen_at = some now }

abbrev pub set_status : AgentStatus → String → ℕ → Tables → Tables
set_status s k now t = record t { agents = update_where (agent_is k) (seen s now) t.agents }

unfoldable pub set_online : String → ℕ → Db → Db
unfolding commit
set_online k now db = commit (record db { tables = set_status online k now db.tables })

unfoldable pub set_offline : String → ℕ → Db → Db
unfolding commit
set_offline k now db = commit (record db { tables = set_status offline k now db.tables })

-- `none` for the status is "unknown".
abbrev pub status_in : Option AgentRow → Option AgentStatus × Option ℕ
status_in none = (none, none)
status_in (some r) = (some r.status, r.last_seen_at)

-- The answer of `get_status`.
unfoldable pub get_status : String → Db → Option AgentStatus × Option ℕ
get_status k db = status_in (find_first (agent_is k) db.tables.agents)
