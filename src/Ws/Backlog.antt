-- ===== src/Ws/Backlog.antt =====
-- The flush at the start of a session (`websocket_endpoint`, src/claw_msg/server/routes_ws.py).
use claw_msg.Prelude.{
  ℕ, ◌≤◌, ◌≡◌, refl, sym, ap, ◌∙◌, String, Bool, true, false, some, is_empty, List, [], ◌∷◌, ◌++◌,
  map, inl, inr, if◌then◌else◌, Bool-cases,
}
use mathlib.Core.List.{append_assoc, append-nil}
use claw_msg.Schema.{AgentRow, online, agent_is, commit}
use claw_msg.Table.{find_first, update_where}
use claw_msg.Table.Laws.{find_first-update_where, find_first_fits}
use claw_msg.Presence.{set_online, get_status, seen}
use claw_msg.Broker.{register}
use claw_msg.OfflineQueue.{flush_for_agent, pending_for}
use claw_msg.OfflineQueue.Flush.{flush_twice}
use claw_msg.Exec.{MsgData, Frame, message_receive, Socket, Env, World}
use claw_msg.Ws.Frames.{send_text}
use claw_msg.Ws.Session.{send_pending, flush_backlog, open_session}

abbrev pub frames_to : Socket → List MsgData → List (Socket × Frame)
frames_to ws msgs = map (λ m. (ws, message_receive m)) msgs

send_pending_alive :
    (env : Env) (ws : Socket) (msgs : List MsgData) (w : World)
    → env.alive ws ≡ true
    → send_pending env ws msgs w ≡ record w { wire = w.wire ++ frames_to ws msgs }
unfolding send_pending send_text
send_pending_alive env ws [] w h = ap (λ l. record w { wire = l }) (sym (append-nil w.wire))
send_pending_alive env ws (m ∷ msgs) w h = rw h (
    send_pending_alive env ws msgs (record w { wire = w.wire ++ (ws, message_receive m) ∷ [] }) h
    ∙ ap (λ l. record w { wire = l })
        (append_assoc w.wire ((ws, message_receive m) ∷ []) (frames_to ws msgs)))

send_pending_dead :
    (env : Env) (ws : Socket) (msgs : List MsgData) (w : World)
    → env.alive ws ≡ false
    → send_pending env ws msgs w ≡ w
unfolding send_pending
send_pending_dead env ws [] w h = refl
send_pending_dead env ws (m ∷ msgs) w h = rw h refl

abbrev pub sent_if : Bool → List (Socket × Frame) → List (Socket × Frame)
sent_if b fs = if b then fs else []

send_pending_lem :
    (env : Env) (ws : Socket) (msgs : List MsgData) (w : World)
    → send_pending env ws msgs w
      ≡ record w { wire = w.wire ++ sent_if (env.alive ws) (frames_to ws msgs) }
send_pending_lem env ws msgs w = elim (Bool-cases (env.alive ws)) [
  | inl e ↦ send_pending_alive env ws msgs w e ∙ rw e refl
  | inr e ↦
      send_pending_dead env ws msgs w e
      ∙ rw e (ap (λ l. record w { wire = l }) (sym (append-nil w.wire)))
]

agent_online :
    (env : Env) (agent : String) (w : World) {r : AgentRow}
    → find_first (agent_is agent) w.db.tables.agents ≡ some r
    → get_status agent (flush_for_agent agent env.now (set_online agent env.now w.db)).1
      ≡ (some online, some env.now)
unfolding flush_for_agent set_online get_status commit
agent_online env agent w {r} f =
    let seen_row =
      find_first-update_where (agent_is agent) (agent_is agent) (seen online env.now)
        w.db.tables.agents (λ z. refl) in
    let found : find_first (agent_is agent)
          (update_where (agent_is agent) (seen online env.now) w.db.tables.agents)
        ≡ some (seen online env.now r) =
      rw seen_row (rw (f, find_first_fits (agent_is agent) w.db.tables.agents f) refl) in
    elim (Bool-cases
      (is_empty (pending_for agent env.now (set_online agent env.now w.db).tables))) [
        | inl e ↦ rw e (rw found refl)
        | inr e ↦ rw e (rw found refl)
      ]

-- A session begins with the agent, whose row is there, set online and registered at its socket. The
-- socket is sent each waiting message, in order, after what was sent before, if it takes a frame,
-- and else none; either way no later flush hands one of them out again.
pub open_session_lem :
    (env : Env) (ws : Socket) (agent : String) (w : World) (later : ℕ) {r : AgentRow}
    → env.now ≤ later
    → find_first (agent_is agent) w.db.tables.agents ≡ some r
    → let db = set_online agent env.now w.db in
      let w' = (open_session env ws agent w).1 in
      (get_status agent w'.db ≡ (some online, some env.now))
      × (w'.connections ≡ register w.connections agent ws)
      × (w'.wire
          ≡ w.wire ++ sent_if (env.alive ws) (frames_to ws (flush_for_agent agent env.now db).0))
      × ((flush_for_agent agent later w'.db).0 ≡ [])
unfolding open_session flush_backlog
open_session_lem env ws agent w later h there =
    let db = set_online agent env.now w.db in
    let (msgs, db') = flush_for_agent agent env.now db in
    let v : World = record w { connections = register w.connections agent ws; db = db' } in
    let e = send_pending_lem env ws msgs v in
    (
      ap (λ u. get_status agent u.db) e ∙ agent_online env agent w there,
      ap (λ u. u.connections) e,
      ap (λ u. u.wire) e,
      ap (λ u. (flush_for_agent agent later u.db).0) e ∙ flush_twice agent env.now later db h,
    )
