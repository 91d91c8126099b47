-- ===== src/Ws/Closing.antt =====
-- The end of a session (`websocket_endpoint`, src/claw_msg/server/routes_ws.py).
use claw_msg.Prelude.{◌≡◌, refl, ap, ◌∙◌, String, not, some, is_empty, eq_refl, ◌==◌, if◌then◌else◌}
use claw_msg.Schema.{AgentRow, offline, agent_is, commit, IsSettled}
use claw_msg.Table.{find_first}
use claw_msg.Table.Laws.{find_first-update_where, find_first_fits}
use claw_msg.Presence.{set_offline, get_status, seen}
use claw_msg.Broker.{remove_first, sockets_of, is_online, unregister}
use claw_msg.Broker.Registry.{sockets_of-unregister, is_online-eq}
use claw_msg.Exec.{Socket, Env, World}
use claw_msg.Ws.Session.{close_session}

agent_offline :
    (env : Env) (ws : Socket) (agent : String) (w : World) {r : AgentRow}
    → find_first (agent_is agent) w.db.tables.agents ≡ some r
    → get_status agent (close_session env ws agent w).db ≡ (some offline, some env.now)
unfolding close_session set_offline get_status commit
agent_offline env ws agent w f =
    rw
      (find_first-update_where (agent_is agent) (agent_is agent) (seen offline env.now)
        w.db.tables.agents (λ z. refl))
      (rw (f, find_first_fits (agent_is agent) w.db.tables.agents f) refl)

-- At its end a session takes one entry of its socket out of the agent's sockets and no other agent's
-- entry, and sets the agent offline, whose row is there. The broker then holds the agent online
-- exactly if another entry is left, while its status is offline in either case. All of it is
-- committed.
pub close_session_lem :
    (env : Env) (ws : Socket) (agent : String) (w : World) {r : AgentRow}
    → find_first (agent_is agent) w.db.tables.agents ≡ some r
    → let w' = close_session env ws agent w in
      (get_status agent w'.db ≡ (some offline, some env.now))
      × (is_online w'.connections agent
          ≡ not (is_empty (remove_first ws (sockets_of w.connections agent))))
      × ((j : String)
          → sockets_of w'.connections j ≡ (
              if agent == j
              then remove_first ws (sockets_of w.connections agent)
              else sockets_of w.connections j))
      × IsSettled w'.db
unfolding close_session set_offline commit
close_session_lem env ws agent w f = (
  agent_offline env ws agent w f,
  is_online-eq (unregister w.connections agent ws) agent
      ∙ ap (λ ss. not (is_empty ss)) (sockets_of-unregister w.connections agent agent ws)
      ∙ rw (eq_refl agent) refl,
  λ j. sockets_of-unregister w.connections agent j ws,
  refl,
)
