-- ===== src/Tests/Broker.antt =====
-- Sends to an agent with a live and a dead socket.
use claw_msg.Prelude.{
  ◌≡◌, refl, ◌++◌, String, false, [], ◌∷◌, filter, length, ltb, ◌==◌, if◌then◌else◌,
}
use claw_msg.Prelude.Dict.{get, put, remove}
use claw_msg.Exec.{ping}
use claw_msg.Broker.{
  sockets_of, send_to_agent, send_each, unregister_each, unregister, remove_first, put_or_delete,
}
use claw_msg.Broker.Registry.{is_dead}
use claw_msg.Broker.Delivery.{to_each, send_to_agent_lem}
use claw_msg.Tests.Sample.{env, world}

-- One of two sockets got the frame, and the answer says that it was not delivered.
half_delivered :
    ((send_to_agent env.alive "a1" ping world).0 ≡ false)
    × ((send_to_agent env.alive "a1" ping world).1.wire ≡ (1, ping) ∷ [])
unfolding send_to_agent send_each unregister_each unregister remove_first put_or_delete get put
    remove ◌==◌
half_delivered = (refl, refl)

send_to_agent_example :
    let (delivered, w') = send_to_agent env.alive "a1" ping world in
    let live = filter env.alive (sockets_of world.connections "a1") in
    let dead = filter (is_dead env.alive) (sockets_of world.connections "a1") in
    (w'.wire ≡ world.wire ++ to_each ping live)
    × ((j : String)
        → sockets_of w'.connections j
          ≡ (if "a1" == j then live else sockets_of world.connections j))
    × (w'.db ≡ world.db)
    × (w'.buckets ≡ world.buckets)
    × (delivered ≡ ltb (length dead) (length live))
send_to_agent_example = send_to_agent_lem env.alive "a1" ping world
