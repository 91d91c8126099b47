-- ===== src/Messages/Base.antt =====
-- The deliveries leave the tables alone, but for the queue
-- (src/claw_msg/server/routes_messages.py).
use claw_msg.Prelude.{◌≡◌, refl, sym, ◌∙◌, inl, inr, String, Option, arith, Bool-cases}
use mathlib.Core.Path.{subst}
use claw_msg.Schema.{has_message, commit}
use claw_msg.Exec.{Frame, Env, World, Result}
use claw_msg.OfflineQueue.{enqueue}
use claw_msg.Broker.Delivery.{answer, after_send}
use claw_msg.Messages.{deliver_one, deliver_direct, deliver_room, members_of}
use claw_msg.Messages.Handed.{deliver_one_parts}
use claw_msg.Messages.Delivery.{room_induction, direct_induction}

-- What a call leaves of the tables beside the queue.
abbrev pub SameBase : World → World → Type 0
SameBase v w =
    (w.db.tables.agents ≡ v.db.tables.agents)
    × (w.db.tables.messages ≡ v.db.tables.messages)
    × (w.db.tables.room_members ≡ v.db.tables.room_members)

enqueue-SameBase : (env : Env) (m a : String) (w : World) → SameBase w (enqueue env m a w).1
unfolding enqueue commit
enqueue-SameBase env m a w = ground arith

pub SameBase-trans : (u v w : World) → SameBase u v → SameBase v w → SameBase u w
SameBase-trans u v w a b = (b.0 ∙ a.0, b.1 ∙ a.1, b.2 ∙ a.2)

module _ (env : Env) (id : String) (f : Frame) where
  sent-SameBase : (k : String) (w : World) → SameBase w (after_send env.alive k f w)
  unfolding after_send
  sent-SameBase k w = (refl, refl, refl)

  pub deliver_one-SameBase : (k : String) (w : World) → SameBase w (deliver_one env id f k w).1
  deliver_one-SameBase k w =
      let v = after_send env.alive k f w in
      subst (λ (r : Result (Unit {0}) × World). SameBase w r.1)
        (sym (deliver_one_parts env id f k w))
        (elim (Bool-cases (answer env.alive k f w)) [
          | inl e ↦ rw e (sent-SameBase k w)
          | inr e ↦ rw e (
              SameBase-trans w v (enqueue env id k v).1 (sent-SameBase k w)
                (enqueue-SameBase env id k v))
        ])

  pub direct-SameBase :
      (to : Option String) (w : World) → SameBase w (deliver_direct env id f to w).1
  direct-SameBase to w =
      direct_induction env id f (SameBase w)
        (λ j v s. SameBase-trans w v (deliver_one env id f j v).1 s (deliver_one-SameBase j v)) to w
        (refl, refl, refl)

  pub room-SameBase :
      (sender : String) (room : Option String) (w : World)
      → SameBase w (deliver_room env id f sender room w).1
  room-SameBase sender room w =
      room_induction env id f (SameBase w)
        (λ j v s. SameBase-trans w v (deliver_one env id f j v).1 s (deliver_one-SameBase j v))
        sender room w (refl, refl, refl)

pub has_message_same :
    (v w : World) (id : String)
    → SameBase v w
    → has_message w.db.tables id ≡ has_message v.db.tables id
unfolding has_message
has_message_same v w id s = rw (s.1)

pub members_of_same :
    (room : String) (v w : World)
    → SameBase v w
    → members_of room w.db.tables ≡ members_of room v.db.tables
unfolding members_of
members_of_same room v w s = rw (s.2)
