-- ===== src/Broker.antt =====
-- src/claw_msg/server/broker.py: the sockets of each agent, and the sending of one frame to all of
-- an agent's sockets. While one call sends, no other task changes the sockets of that agent.
pub mod Registry
pub mod Delivery
use claw_msg.Prelude.{
  ℕ, String, Bool, true, false, Option, none, some, List, [], ◌∷◌, ◌++◌, ltb, nat_eq, length,
  opt_eq, is_empty, if◌then◌else◌,
}
use claw_msg.Prelude.Dict.{get, put, remove, keys}
use claw_msg.Exec.{Frame, Socket, Connections, World}

abbrev pub or_empty : Option (List Socket) → List Socket
or_empty none = []
or_empty (some ws) = ws

-- `self._connections.get(agent_id, [])`
abbrev pub sockets_of : Connections → String → List Socket
sockets_of c k = or_empty (get c k)

unfoldable pub register : Connections → String → Socket → Connections
register c k s = put c k (sockets_of c k ++ s ∷ [])

-- `list.remove`; the `ValueError` of a list without `s` is passed over.
unfoldable pub remove_first : Socket → List Socket → List Socket
remove_first s [] = []
remove_first s (x ∷ xs) = let rest = remove_first s xs in if nat_eq x s then xs else x ∷ rest

-- The entry of an agent without sockets is deleted.
unfoldable pub put_or_delete : Connections → String → List Socket → Connections
put_or_delete c k ws = if is_empty ws then remove c k else put c k ws

unfoldable pub unregister : Connections → String → Socket → Connections
unregister c k s = elim (get c k) [ none ↦ c | some ws ↦ put_or_delete c k (remove_first s ws) ]

unfoldable pub is_online : Connections → String → Bool
is_online c k = elim (get c k) [ none ↦ false | some ws ↦ ltb 0 (length ws) ]

unfoldable pub online_agents : Connections → List String
online_agents c = keys c

abbrev pub sent : Socket → Frame → World → World
sent s f w = record w { wire = w.wire ++ (s, f) ∷ [] }

-- The first loop of `send_to_agent`: each socket is tried, and those that raise are collected.
unfoldable pub send_each :
    (Socket → Bool) → Frame → List Socket → List Socket → World → List Socket × World
send_each alive f [] dead w = (dead, w)
send_each alive f (s ∷ ss) dead w =
    send_each alive f ss (if alive s then dead else dead ++ s ∷ [])
      (if alive s then sent s f w else w)

-- The second loop.
unfoldable pub unregister_each : String → List Socket → Connections → Connections
unregister_each k [] c = c
unregister_each k (s ∷ ss) c = unregister_each k ss (unregister c k s)

-- The name `connections` of the code is the list object that the dict holds: by the last line the
-- second loop has taken the dead sockets out of it.
unfoldable pub send_to_agent : (Socket → Bool) → String → Frame → World → Bool × World
send_to_agent alive k f w =
    if is_empty (sockets_of w.connections k)
    then (false, w)
    else let (dead, w') = send_each alive f (sockets_of w.connections k) [] w in
      let c = unregister_each k dead w'.connections in
      (ltb (length dead) (length (sockets_of c k)), record w' { connections = c })

unfoldable pub broadcast_to_room :
    (Socket → Bool) → List String → Frame → Option String → World → World
broadcast_to_room alive [] f exclude w = w
broadcast_to_room alive (m ∷ ms) f exclude w =
    broadcast_to_room alive ms f exclude
      (if opt_eq exclude m then w else (send_to_agent alive m f w).1)
