-- ===== src/Messages/Guarantee.antt =====
-- What the sender of a message is promised when the call returns
-- (src/claw_msg/server/routes_messages.py).
use claw_msg.Prelude.{
  ◌≡◌, refl, sym, ap, ◌∙◌, String, Bool, true, false, Option, none, some, List, [], ◌∷◌, arith,
  ◌==◌, eq_iff, eq_refl, any, any-append, str_truthy, All, if◌then◌else◌,
}
use mathlib.Core.Path.{subst}
use claw_msg.Schema.{
  QueueRow, Tables, queue_is, queue_refers, has_message, message_is, message_fits, IsWellFormed,
}
use claw_msg.Table.{find_first}
use claw_msg.Exec.{MsgData, Frame, message_receive, Env, World, ok, bind-eq-ok}
use claw_msg.OfflineQueue.Status.{status_of}
use claw_msg.Messages.{
  MessageSendRequest, deliver_direct, deliver_each, deliver_room, deliver, members_of, send_message,
  message_row, msg_data_of,
}
use claw_msg.Messages.Base.{
  SameBase, SameBase-trans, direct-SameBase, room-SameBase, has_message_same, members_of_same,
}
use claw_msg.Messages.Checks.{after_rate, after_store, send_message-IsSent}
use claw_msg.Messages.Handed.{Handed, IsOpen, deliver_one-keeps, deliver_one-Handed}
use claw_msg.Messages.Delivery.{
  AllHanded, deliver_one-IsOpen, room_induction, direct_induction, deliver_each-Handed,
}

module _ (env : Env) (id : String) (f : Frame) where
  direct-Handed :
      (k : String) (w : World)
      → str_truthy k ≡ true
      → IsOpen id w
      → (deliver_direct env id f (some k) w).0 ≡ ok tt
      → Handed env id f k (deliver_direct env id f (some k) w).1
  unfolding deliver_direct
  direct-Handed k w t o h = rw t (deliver_one-Handed env id f k w (o k) (rw t at h))

  room-Handed :
      (sender room : String) (w : World)
      → str_truthy room ≡ true
      → IsOpen id w
      → (deliver_room env id f sender (some room) w).0 ≡ ok tt
      → AllHanded env id f sender
          (members_of room w.db.tables)
          (deliver_room env id f sender (some room) w)
  unfolding deliver_room
  room-Handed sender room w t o h =
      let ms = members_of room w.db.tables in
      subst
        (λ (b : Bool).
          AllHanded env id f sender ms
            (if b then deliver_each env id f sender ms w else (ok tt, w)))
        (sym t) (deliver_each-Handed env id f sender ms w o (rw t at h))

-- The queue has no entry of a message that is not stored.
no_entry :
    (t : Tables) (id k : String) (qs : List QueueRow)
    → has_message t id ≡ false
    → All (λ q. queue_refers t q ≡ true) qs
    → find_first (queue_is id k) qs ≡ none
unfolding find_first queue_refers
no_entry t id k [] new h = refl
no_entry t id k (q ∷ qs) new h = ground (arith, no_entry t id k qs new h.1, eq_iff q.message_id id)

fresh_message :
    (t : Tables) (env : Env) (sender : String) (to : Option String) (req : MessageSendRequest)
    → message_fits t (message_row env sender to req) ≡ true
    → has_message t env.uuid ≡ false
unfolding message_fits
fresh_message t env sender to req h = ground arith

module _ (env : Env) (req : MessageSendRequest) (sender : String) (to : Option String)
    (w : World) where
  abbrev stored : World
  stored = after_store env sender to req (after_rate env sender w)

  stored-IsOpen :
      IsWellFormed w.db.tables → has_message w.db.tables env.uuid ≡ false → IsOpen env.uuid stored
  unfolding after_store status_of
  stored-IsOpen wf new k =
      rw (no_entry w.db.tables env.uuid k w.db.tables.delivery_queue new wf.queue_refers_all)

  stored-has_message : has_message stored.db.tables env.uuid ≡ true
  unfolding after_store has_message any
  stored-has_message =
      any-append (message_is env.uuid) w.db.tables.messages (message_row env sender to req ∷ [])
      ∙ ground (arith, eq_refl env.uuid)

  stored_members : (r : String) → members_of r stored.db.tables ≡ members_of r w.db.tables
  unfolding after_store members_of
  stored_members r = refl

-- The parts of both deliveries, when they have returned.
deliver-ok :
    (env : Env) (id : String) (f : Frame) (sender : String) (to room : Option String) (w : World)
    {w' : World}
    → deliver env id f sender to room w ≡ (ok tt, w')
    → ((deliver_direct env id f to w).0 ≡ ok tt)
      × (deliver_room env id f sender room (deliver_direct env id f to w).1 ≡ (ok tt, w'))
unfolding deliver
deliver-ok env id f sender to room w {w'} h =
    let (u, first, rest) =
      bind-eq-ok (deliver_direct env id f to) (λ _. deliver_room env id f sender room) w h in
    (ap (λ p. p.0) first, rest)

-- Both deliveries hand the message to the recipient and to the members of the room.
deliver-Handed :
    (env : Env) (id : String) (f : Frame) (sender : String) (to room : Option String) (w : World)
    {w' : World}
    → IsOpen id w
    → deliver env id f sender to room w ≡ (ok tt, w')
    → ((k : String) → to ≡ some k → str_truthy k ≡ true → Handed env id f k w')
      × ((r : String)
          → room ≡ some r
          → str_truthy r ≡ true
          → All (λ m. (m == sender) ≡ false → Handed env id f m w') (members_of r w.db.tables))
      × SameBase w w'
deliver-Handed env id f sender to room w {w'} o h =
    let (first, rest) = deliver-ok env id f sender to room w h in
    let v = (deliver_direct env id f to w).1 in
    let ended : (deliver_room env id f sender room v).1 ≡ w' = ap (λ p. p.1) rest in
    let open_v =
      direct_induction env id f (IsOpen id) (λ j u p. deliver_one-IsOpen env id f j u p) to w o in
    let same_v = direct-SameBase env id f to w in
    (
      λ k e t. subst (Handed env id f k) ended (
          room_induction env id f (Handed env id f k) (λ j u p. deliver_one-keeps env id f j k u p)
            sender room v
            (subst (λ (x : Option String). Handed env id f k (deliver_direct env id f x w).1)
              (sym e) (direct-Handed env id f k w t o (rw e at first)))),
      λ r e t.
          subst
            (λ (u : World).
              All (λ m. (m == sender) ≡ false → Handed env id f m u) (members_of r w.db.tables))
            ended
            (subst
              (λ (ms : List String).
                AllHanded env id f sender ms (deliver_room env id f sender room v))
              (members_of_same r w v same_v)
              (subst
                (λ (x : Option String).
                  AllHanded env id f sender (members_of r v.db.tables)
                    (deliver_room env id f sender x v))
                (sym e) (room-Handed env id f sender r v t open_v (ap (λ p. p.0) (rw e at rest))))),
      subst (SameBase w) ended (
          SameBase-trans w v (deliver_room env id f sender room v).1 same_v
            (room-SameBase env id f sender room v)),
    )

-- When `send_message` returns, the message is stored; its recipient has been handed it, by the
-- frame of the answer on one of the recipient's live sockets or by a pending entry of the queue;
-- and so has every member of its room but the sender. (The tables keep their foreign keys.)
pub hands_over_each :
    (env : Env) (req : MessageSendRequest) (sender : String) (w : World) {msg : MsgData}
    {w' : World}
    → IsWellFormed w.db.tables
    → send_message env req sender w ≡ (ok msg, w')
    → (has_message w'.db.tables msg.id ≡ true)
      × ((k : String)
          → msg.to_agent ≡ some k
          → str_truthy k ≡ true
          → Handed env msg.id (message_receive msg) k w')
      × ((r : String)
          → msg.room_id ≡ some r
          → str_truthy r ≡ true
          → All
              (λ m. (m == sender) ≡ false → Handed env msg.id (message_receive msg) m w')
              (members_of r w.db.tables))
unfolding msg_data_of
hands_over_each env req sender w {msg} {w'} wf h =
    let s = send_message-IsSent env req sender w h in
    let new = fresh_message w.db.tables env sender s.to req s.fits in
    let v = stored env req sender s.to w in
    let (to_agent, to_room, same) =
      deliver-Handed env env.uuid (message_receive msg) sender s.to req.room_id v
        (stored-IsOpen env req sender s.to w wf new) s.done in
    let its_id : msg.id ≡ env.uuid = ap (λ (d : MsgData). d.id) s.answered in
    let its_to : msg.to_agent ≡ s.to = ap (λ (d : MsgData). d.to_agent) s.answered in
    let its_room : msg.room_id ≡ req.room_id = ap (λ (d : MsgData). d.room_id) s.answered in
    (
      subst (λ (i : String). has_message w'.db.tables i ≡ true) (sym its_id)
          (has_message_same v w' env.uuid same ∙ stored-has_message env req sender s.to w),
      λ k e t.
          subst (λ (i : String). Handed env i (message_receive msg) k w') (sym its_id)
            (to_agent k (sym its_to ∙ e) t),
      λ r e t.
          subst
            (λ (i : String).
              All (λ m. (m == sender) ≡ false → Handed env i (message_receive msg) m w')
                (members_of r w.db.tables))
            (sym its_id)
            (subst
              (λ (ms : List String).
                All (λ m. (m == sender) ≡ false → Handed env env.uuid (message_receive msg) m w')
                  ms)
              (stored_members env req sender s.to w r) (to_room r (sym its_room ∙ e) t)),
    )
