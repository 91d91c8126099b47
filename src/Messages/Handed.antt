-- ===== src/Messages/Handed.antt =====
-- A message is handed to an agent when a live socket of the agent has got its frame, or when the
-- agent's queue holds it (src/claw_msg/server/routes_messages.py, broker.py, offline_queue.py).
use claw_msg.Prelude.{
  ◌<◌, ◌≡◌, refl, ◌⊎◌, inl, inr, String, Bool, true, false, Option, none, some, List, [], ◌∷◌,
  arith, eq_refl, filter, length, ltb→lt, In, here, there, In-append_left, In-append_right,
  if◌then◌else◌, Bool-cases,
}
use claw_msg.Schema.{DeliveryStatus, pending, delivered, acked, queue_is, has_queued, commit}
use claw_msg.Table.{find_first}
use claw_msg.Table.Laws.{find_first-append, any-find_first}
use claw_msg.Exec.{Socket, Frame, Env, World, ok}
use claw_msg.Broker.{sockets_of}
use claw_msg.Broker.Delivery.{
  to_each, after_send, In-after_send, send_to_agent_parts, answer, live_after_send,
}
use claw_msg.OfflineQueue.{enqueue, queue_row}
use claw_msg.OfflineQueue.Status.{status_of, queue_after_enqueue}
use claw_msg.Messages.{deliver_one}

abbrev pub Handed : Env → String → Frame → String → World → Type 0
Handed env id f k w =
    ((s : Socket) × In s (sockets_of w.connections k) × (env.alive s ≡ true) × In (s, f) w.wire)
    ⊎ (status_of id k w.db ≡ some pending)

abbrev pub is_open : Option DeliveryStatus → Bool
is_open none = true
is_open (some pending) = true
is_open (some delivered) = false
is_open (some acked) = false

-- No entry of the message has left the state of a new one.
abbrev pub IsOpen : String → World → Type 0
IsOpen id w = (k : String) → is_open (status_of id k w.db) ≡ true

-- An entry that is there keeps its status when another message or agent is put in.
pub status-enqueue :
    (env : Env) (m a m' a' : String) (w : World) {s : DeliveryStatus}
    → status_of m a w.db ≡ some s
    → status_of m a (enqueue env m' a' w).1.db ≡ some s
unfolding status_of
status-enqueue env m a m' a' w {s} h = rw queue_after_enqueue (
    ground (
      arith,
      find_first-append (queue_is m a) w.db.tables.delivery_queue (queue_row env m' a' ∷ []),
    ))

pub enqueue_rest :
    (env : Env) (m a : String) (w : World)
    → ((enqueue env m a w).1.connections ≡ w.connections)
      × ((enqueue env m a w).1.wire ≡ w.wire)
      × ((enqueue env m a w).1.buckets ≡ w.buckets)
unfolding enqueue
enqueue_rest env m a w = ground arith

-- A message that is put in has a pending entry, if it had none or a pending one.
pub enqueue_pending :
    (env : Env) (m a : String) (w : World)
    → is_open (status_of m a w.db) ≡ true
    → (enqueue env m a w).0 ≡ ok tt
    → status_of m a (enqueue env m a w).1.db ≡ some pending
unfolding status_of enqueue has_queued find_first commit
enqueue_pending env m a w o h = ground (
  arith,
  any-find_first (queue_is m a) w.db.tables.delivery_queue,
  find_first-append (queue_is m a) w.db.tables.delivery_queue (queue_row env m a ∷ []),
  eq_refl m,
  eq_refl a,
)

-- A sum over the sends of one frame: what is in the wire stays there, and a live socket stays.
In-to_each : (f : Frame) {s : Socket} {ss : List Socket} → In s ss → In (s, f) (to_each f ss)
In-to_each f (here e) = here (λ i. (e i, f))
In-to_each f (there i) = there (In-to_each f i)

live_head :
    (p : Socket → Bool) (ss : List Socket)
    → 0 < length (filter p ss)
    → (s : Socket) × In s (filter p ss) × (p s ≡ true)
unfolding filter
live_head p [] h = elim h [ ]
live_head p (s ∷ ss) h = elim (Bool-cases (p s)) [
  | inl e ↦ (s, rw e (here refl), e)
  | inr e ↦ let (x, i, l) = live_head p ss (rw e at h) in (x, rw e i, l)
]

module _ (env : Env) (id : String) (f : Frame) (w : World) where
  -- A send to `j` takes nothing from `k`.
  send-Handed :
      (g : Frame) (j k : String)
      → Handed env id f k w
      → Handed env id f k (after_send env.alive j g w)
  unfolding after_send
  send-Handed g j k (inr q) = inr q
  send-Handed g j k (inl (s, i, l, sent)) =
      inl (s, In-after_send env.alive j k g w l i, l, In-append_left (to_each g _) sent)

  enqueue-Handed :
      (id' j k : String) → Handed env id f k w → Handed env id f k (enqueue env id' j w).1
  enqueue-Handed id' j k (inr q) = inr (status-enqueue env id k id' j w q)
  enqueue-Handed id' j k (inl (s, i, l, sent)) =
      let same = enqueue_rest env id' j w in inl (s, rw (same.0) i, l, rw (same.1) sent)

  -- Where more sockets are live than dead, one of them gets the frame.
  answered-Handed :
      (k : String) → answer env.alive k f w ≡ true → Handed env id f k (after_send env.alive k f w)
  unfolding after_send
  answered-Handed k a =
      let (s, i, l) =
        live_head env.alive (sockets_of w.connections k) (omega (arith, ltb→lt _ _ a)) in
      inl (s, rw (live_after_send env.alive k f w) i, l, In-append_right w.wire (In-to_each f i))

module _ (env : Env) (id : String) (f : Frame) where
  pub deliver_one_parts :
      (k : String) (w : World)
      → deliver_one env id f k w ≡ (
          if answer env.alive k f w
          then (ok tt, after_send env.alive k f w)
          else enqueue env id k (after_send env.alive k f w))
  unfolding deliver_one
  deliver_one_parts k w = rw send_to_agent_parts

  pub after_send_db : (k : String) (w : World) → (after_send env.alive k f w).db ≡ w.db
  unfolding after_send
  after_send_db k w = refl

  pub deliver_one-keeps :
      (j k : String) (w : World)
      → Handed env id f k w
      → Handed env id f k (deliver_one env id f j w).1
  deliver_one-keeps j k w h =
      let h' = send-Handed env id f w f j k h in
      rw deliver_one_parts (elim (Bool-cases (answer env.alive j f w)) [
        | inl e ↦ rw e h'
        | inr e ↦ rw e (enqueue-Handed env id f (after_send env.alive j f w) id j k h')
      ])

  pub deliver_one-Handed :
      (k : String) (w : World)
      → is_open (status_of id k w.db) ≡ true
      → (deliver_one env id f k w).0 ≡ ok tt
      → Handed env id f k (deliver_one env id f k w).1
  deliver_one-Handed k w o h = elim (Bool-cases (answer env.alive k f w)) [
    | inl e ↦ rw (deliver_one_parts, e) (answered-Handed env id f w k e)
    | inr e ↦
        let p = rw (deliver_one_parts, e) at h in
        rw (deliver_one_parts, e) (inr (enqueue_pending env id k _ (rw after_send_db o) p))
  ]
