-- ===== src/Messages/Returns.antt =====
-- The deliveries of a stored message to agents that exist return
-- (src/claw_msg/server/routes_messages.py).
use claw_msg.Prelude.{
  ◌≡◌, refl, sym, ◌∙◌, inl, inr, String, true, Option, none, some, List, [], ◌∷◌, arith, ◌==◌, map,
  filter, str_truthy, All, All-mono, Bool-cases,
}
use mathlib.Core.Path.{subst}
use claw_msg.Schema.{MemberRow, Tables, queue_refers, member_refers, has_message, has_agent}
use claw_msg.Exec.{Frame, Env, World, ok}
use claw_msg.OfflineQueue.{enqueue}
use claw_msg.Broker.Delivery.{answer, after_send}
use claw_msg.Messages.{
  deliver_one, deliver_direct, deliver_each, deliver_room, deliver, members_of, in_room,
}
use claw_msg.Messages.Base.{
  SameBase, deliver_one-SameBase, direct-SameBase, members_of_same, has_message_same,
}
use claw_msg.Messages.Handed.{deliver_one_parts, after_send_db}
use claw_msg.Messages.Delivery.{each_skip, each_ok}

enqueue-ok :
    (env : Env) (id k : String) (w : World)
    → has_message w.db.tables id ≡ true
    → has_agent w.db.tables k ≡ true
    → (enqueue env id k w).0 ≡ ok tt
unfolding enqueue queue_refers
enqueue-ok env id k w m a = ground arith

has_agent_same :
    (v w : World) (k : String) → SameBase v w → has_agent w.db.tables k ≡ has_agent v.db.tables k
unfolding has_agent
has_agent_same v w k s = rw (s.0)

module _ (env : Env) (id : String) (f : Frame) where
  -- A stored message can be put into the queue of every agent that exists.
  deliver_one-ok :
      (k : String) (w : World)
      → has_message w.db.tables id ≡ true
      → has_agent w.db.tables k ≡ true
      → (deliver_one env id f k w).0 ≡ ok tt
  deliver_one-ok k w m a = rw deliver_one_parts (elim (Bool-cases (answer env.alive k f w)) [
    | inl e ↦ rw e
    | inr e ↦
        rw e (
          enqueue-ok env id k (after_send env.alive k f w) (rw after_send_db m)
            (rw after_send_db a))
  ])

  deliver_each-ok :
      (sender : String) (ms : List String) (w : World)
      → has_message w.db.tables id ≡ true
      → All (λ k. has_agent w.db.tables k ≡ true) ms
      → (deliver_each env id f sender ms w).0 ≡ ok tt
  unfolding deliver_each
  deliver_each-ok sender [] w m a = refl
  deliver_each-ok sender (k ∷ ms) w m a = elim (Bool-cases (k == sender)) [
    | inl e ↦ rw (each_skip env id f sender k ms w e) (deliver_each-ok sender ms w m a.1)
    | inr e ↦
        let v = (deliver_one env id f k w).1 in
        let same = deliver_one-SameBase env id f k w in
        rw (each_ok env id f sender k ms w e (deliver_one-ok k w m a.0)) (
          deliver_each-ok sender ms v (has_message_same w v id same ∙ m) (
            All-mono (λ j. has_agent w.db.tables j ≡ true) (λ j. has_agent v.db.tables j ≡ true) ms
              (λ j h. has_agent_same w v j same ∙ h) a.1))
  ]

  direct-ok :
      (to : Option String) (w : World)
      → has_message w.db.tables id ≡ true
      → ((k : String) → to ≡ some k → has_agent w.db.tables k ≡ true)
      → (deliver_direct env id f to w).0 ≡ ok tt
  unfolding deliver_direct
  direct-ok none w m a = refl
  direct-ok (some k) w m a = elim (Bool-cases (str_truthy k)) [
    | inl e ↦ rw e (deliver_one-ok k w m (a k refl))
    | inr e ↦ rw e
  ]

  room-ok :
      (sender : String) (room : Option String) (w : World)
      → has_message w.db.tables id ≡ true
      → ((r : String) → All (λ k. has_agent w.db.tables k ≡ true) (members_of r w.db.tables))
      → (deliver_room env id f sender room w).0 ≡ ok tt
  unfolding deliver_room
  room-ok sender none w m a = refl
  room-ok sender (some r) w m a = elim (Bool-cases (str_truthy r)) [
    | inl e ↦ rw e (deliver_each-ok sender (members_of r w.db.tables) w m (a r))
    | inr e ↦ rw e
  ]

  pub deliver-returns :
      (sender : String) (to room : Option String) (w : World)
      → has_message w.db.tables id ≡ true
      → ((k : String) → to ≡ some k → has_agent w.db.tables k ≡ true)
      → ((r : String) → All (λ k. has_agent w.db.tables k ≡ true) (members_of r w.db.tables))
      → (deliver env id f sender to room w).0 ≡ ok tt
  unfolding deliver
  deliver-returns sender to room w m a b =
      let v = (deliver_direct env id f to w).1 in
      let same = direct-SameBase env id f to w in
      rw (direct-ok to w m a) (
        room-ok sender room v (has_message_same w v id same ∙ m) (λ r.
          subst (λ (ms : List String). All (λ k. has_agent v.db.tables k ≡ true) ms)
            (sym (members_of_same r w v same))
            (All-mono (λ j. has_agent w.db.tables j ≡ true) (λ j. has_agent v.db.tables j ≡ true)
              (members_of r w.db.tables) (λ j h. has_agent_same w v j same ∙ h) (b r))))

pub members_exist :
    (t : Tables) (r : String) (rows : List MemberRow)
    → All (λ m. member_refers t m ≡ true) rows
    → All (λ k. has_agent t k ≡ true) (map (λ m. m.agent_id) (filter (in_room r) rows))
unfolding filter member_refers
members_exist t r [] h = tt
members_exist t r (m ∷ rows) h = elim (Bool-cases (in_room r m)) [
  | inl e ↦ rw e (ground arith, members_exist t r rows h.1)
  | inr e ↦ rw e (members_exist t r rows h.1)
]
