-- ===== src/Broker/Delivery.antt =====
-- What `send_to_agent` does (src/claw_msg/server/broker.py).
use claw_msg.Prelude.{
  ◌≡◌, refl, sym, ◌∙◌, String, Bool, true, false, List, [], ◌∷◌, ◌++◌, ◌==◌, eq_iff, eq_refl, In,
  In-filter, if◌then◌else◌, is_empty, length, ltb, filter, Bool-cases, inl, inr,
}
use mathlib.Core.List.{append_assoc, append-nil}
use claw_msg.Exec.{Socket, Frame, World}
use claw_msg.Broker.{sockets_of, sent, send_each, unregister_each, send_to_agent}
use claw_msg.Broker.Registry.{
  is_dead, sockets_of-unregister_each, remove_each-filter, IsTidy, unregister_each-IsTidy,
}

abbrev pub to_each : Frame → List Socket → List (Socket × Frame)
to_each f [] = []
to_each f (s ∷ ss) = (s, f) ∷ to_each f ss

-- The first loop: the live sockets get the frame, the others are collected.
send_each_lem :
    (alive : Socket → Bool) (f : Frame) (ss dead : List Socket) (w : World)
    → send_each alive f ss dead w ≡ (
      dead ++ filter (is_dead alive) ss,
      record w { wire = w.wire ++ to_each f (filter alive ss) },
    )
unfolding send_each filter
send_each_lem alive f [] dead w = simp append-nil
send_each_lem alive f (s ∷ ss) dead w = elim (Bool-cases (alive s)) [
  | inl e ↦ rw (e) (send_each_lem alive f ss dead (sent s f w) ∙ simp append_assoc)
  | inr e ↦ rw (e) (send_each_lem alive f ss (dead ++ s ∷ []) w ∙ simp append_assoc)
]

module _ (alive : Socket → Bool) (k : String) (f : Frame) (w : World) where
  abbrev pub live_sockets : List Socket
  live_sockets = filter alive (sockets_of w.connections k)

  abbrev pub dead_sockets : List Socket
  dead_sockets = filter (is_dead alive) (sockets_of w.connections k)

  unfoldable pub after_send : World
  after_send = record w {
    connections = unregister_each k dead_sockets w.connections;
    wire = w.wire ++ to_each f live_sockets;
  }

  pub live_after_send : sockets_of after_send.connections k ≡ live_sockets
  unfolding after_send
  live_after_send =
      rw (sockets_of-unregister_each, eq_refl)
        (remove_each-filter alive (sockets_of w.connections k))

is_empty→nil : (ss : List Socket) → is_empty ss ≡ true → ss ≡ []
is_empty→nil [] h = refl
is_empty→nil (s ∷ ss) h = cc

send_to_none :
    (alive : Socket → Bool) (k : String) (f : Frame) (w : World)
    → sockets_of w.connections k ≡ []
    → after_send alive k f w ≡ w
unfolding after_send filter unregister_each
send_to_none alive k f w e = rw e (simp append-nil)

-- The answer of a call compares the sockets that are live with those that are not.
abbrev pub answer : (Socket → Bool) → String → Frame → World → Bool
answer alive k f w = ltb (length (dead_sockets alive k f w)) (length (live_sockets alive k f w))

answer_none :
    (alive : Socket → Bool) (k : String) (f : Frame) (w : World)
    → sockets_of w.connections k ≡ []
    → false ≡ answer alive k f w
unfolding filter
answer_none alive k f w e = rw e

pub send_to_agent_parts :
    (alive : Socket → Bool) (k : String) (f : Frame) (w : World)
    → send_to_agent alive k f w ≡ (answer alive k f w, after_send alive k f w)
unfolding send_to_agent after_send
send_to_agent_parts alive k f w = elim (Bool-cases (is_empty (sockets_of w.connections k))) [
  | inl e ↦
      let nobody = is_empty→nil (sockets_of w.connections k) e in
      rw e (λ i. (answer_none alive k f w nobody i, sym (send_to_none alive k f w nobody) i))
  | inr e ↦ rw (e, send_each_lem) (rw (live_after_send alive k f w))
]

-- A frame to an agent goes once to each of its live sockets, in their order, and to no other; the
-- agent keeps its live sockets alone; no other agent's sockets change, nor do the database and the
-- rate limits; and the answer is whether more of the agent's sockets were live than dead.
pub send_to_agent_lem :
    (alive : Socket → Bool) (k : String) (f : Frame) (w : World)
    → let (delivered, w') = send_to_agent alive k f w in
      let live = filter alive (sockets_of w.connections k) in
      let dead = filter (is_dead alive) (sockets_of w.connections k) in
      (w'.wire ≡ w.wire ++ to_each f live)
      × ((j : String)
          → sockets_of w'.connections j ≡ (if k == j then live else sockets_of w.connections j))
      × (w'.db ≡ w.db)
      × (w'.buckets ≡ w.buckets)
      × (delivered ≡ ltb (length dead) (length live))
unfolding after_send
send_to_agent_lem alive k f w =
    rw send_to_agent_parts
      (refl, λ j. rw sockets_of-unregister_each (rw remove_each-filter), refl, refl, refl)

-- `send_to_agent` keeps the registry tidy: an agent that has lost its last socket is offline.
pub send_to_agent-IsTidy :
    (alive : Socket → Bool) (k : String) (f : Frame) (w : World)
    → IsTidy w.connections
    → IsTidy (send_to_agent alive k f w).1.connections
unfolding after_send
send_to_agent-IsTidy alive k f w t =
    rw send_to_agent_parts (unregister_each-IsTidy k (dead_sockets alive k f w) w.connections t)

pub sockets_after_send :
    (alive : Socket → Bool) (j k : String) (f : Frame) (w : World)
    → sockets_of (after_send alive j f w).connections k
      ≡ (if j == k then filter alive (sockets_of w.connections j) else sockets_of w.connections k)
unfolding after_send
sockets_after_send alive j k f w = rw sockets_of-unregister_each (rw remove_each-filter)

-- A live socket stays registered, whoever a frame is sent to.
pub In-after_send :
    (alive : Socket → Bool) (j k : String) (f : Frame) (w : World) {s : Socket}
    → alive s ≡ true
    → In s (sockets_of w.connections k)
    → In s (sockets_of (after_send alive j f w).connections k)
In-after_send alive j k f w l i = rw sockets_after_send (elim (Bool-cases (j == k)) [
  | inl e ↦ rw (e, (eq_iff j k).0 e) (In-filter alive l i)
  | inr e ↦ rw e i
])
