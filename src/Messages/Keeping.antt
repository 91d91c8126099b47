-- ===== src/Messages/Keeping.antt =====
-- A send keeps the foreign keys and leaves no transaction open
-- (src/claw_msg/server/routes_messages.py).
use claw_msg.Prelude.{
  ◌≡◌, refl, sym, String, true, false, Option, none, some, [], ◌∷◌, any-append, All-append,
  All-mono, inl, inr, Bool-cases, Option-cases, arith,
}
use mathlib.Core.Path.{subst}
use claw_msg.Schema.{
  IsWellFormed, IsSettled, Db, has_agent, has_message, has_queued, queue_refers, member_refers,
  has_room, contact_refers, message_is, message_fits, commit,
}
use claw_msg.Exec.{Frame, message_receive, Env, World, Result, ok, bind-eq-ok}
use claw_msg.OfflineQueue.{enqueue, queue_row}
use claw_msg.Broker.Delivery.{answer, after_send}
use claw_msg.Messages.{
  MessageSendRequest, message_row, send_message, deliver_one, deliver_direct, deliver_room, deliver,
}
use claw_msg.Messages.Checks.{after_store, after_rate, send_message-IsSent}
use claw_msg.Messages.Delivery.{direct_induction, room_induction}
use claw_msg.Messages.Handed.{deliver_one_parts, after_send_db}
use claw_msg.Messages.Outcome.{Ends, refusal, send_message-Ends}

-- The foreign keys hold, and everything is committed.
abbrev pub IsKept : Db → Type 0
IsKept db = IsWellFormed db.tables × IsSettled db

enqueue-IsKept :
    (env : Env) (id k : String) (w : World) → IsKept w.db → IsKept (enqueue env id k w).1.db
unfolding enqueue queue_refers has_message has_agent member_refers has_room contact_refers commit
enqueue-IsKept env id k w (wf, s) = elim (Bool-cases (has_queued w.db.tables id k)) [
  | inl e ↦ rw e (wf, refl)
  | inr e ↦ elim (Bool-cases (queue_refers w.db.tables (queue_row env id k))) [
    | inr q ↦ rw (e, q) (wf, s)
    | inl q ↦
        rw (e, q)
          (
            record {
              messages_refer = wf.messages_refer;
              rooms_refer = wf.rooms_refer;
              members_refer = wf.members_refer;
              queue_refers_all =
                  All-append (λ r. queue_refers w.db.tables r ≡ true) w.db.tables.delivery_queue
                    (queue_row env id k ∷ []) wf.queue_refers_all (q, tt);
              contacts_refer = wf.contacts_refer;
            },
            refl,
          )
  ]
]

module _ (env : Env) (id : String) (f : Frame) where
  deliver_one-IsKept :
      (k : String) (w : World) → IsKept w.db → IsKept (deliver_one env id f k w).1.db
  deliver_one-IsKept k w p =
      let v = after_send env.alive k f w in
      let kept : IsKept v.db = subst IsKept (sym (after_send_db env id f k w)) p in
      subst (λ (r : Result (Unit {0}) × World). IsKept r.1.db)
        (sym (deliver_one_parts env id f k w))
        (elim (Bool-cases (answer env.alive k f w)) [
          | inl e ↦ rw e kept
          | inr e ↦ rw e (enqueue-IsKept env id k v kept)
        ])

  deliver-IsKept :
      (sender : String) (to room : Option String) (w : World) {u : Unit {0}} {w' : World}
      → IsKept w.db
      → deliver env id f sender to room w ≡ (ok u, w')
      → IsKept w'.db
  unfolding deliver
  deliver-IsKept sender to room w p h =
      let (u, d, k) =
        bind-eq-ok (deliver_direct env id f to) (λ _. deliver_room env id f sender room) w h in
      subst (λ (r : Result (Unit {0}) × World). IsKept r.1.db) k
        (room_induction env id f (λ v. IsKept v.db) deliver_one-IsKept sender room
          (deliver_direct env id f to w).1
          (direct_induction env id f (λ v. IsKept v.db) deliver_one-IsKept to w p))

stored-IsKept :
    (env : Env) (sender : String) (to : Option String) (req : MessageSendRequest) (w : World)
    → message_fits w.db.tables (message_row env sender to req) ≡ true
    → IsWellFormed w.db.tables
    → IsKept (after_store env sender to req w).db
unfolding after_store message_fits queue_refers has_message has_agent member_refers has_room
    contact_refers commit
stored-IsKept env sender to req w fits wf = (
  record {
    messages_refer =
        All-append (λ r. has_agent w.db.tables r.from_agent ≡ true) w.db.tables.messages
          (message_row env sender to req ∷ []) wf.messages_refer (ground arith, tt);
    rooms_refer = wf.rooms_refer;
    members_refer = wf.members_refer;
    queue_refers_all =
        All-mono (λ r. queue_refers w.db.tables r ≡ true) _ w.db.tables.delivery_queue
          (λ r h. ground (
            arith,
            any-append (message_is r.message_id) w.db.tables.messages
                (message_row env sender to req ∷ []),
          ))
          wf.queue_refers_all;
    contacts_refer = wf.contacts_refer;
  },
  refl,
)

-- Whatever becomes of a call, the foreign keys hold afterwards and everything is committed, if that
-- was so before, the sender is an agent and the new id is not taken.
pub send_message-IsKept :
    (env : Env) (req : MessageSendRequest) (sender : String) (w : World)
    → IsKept w.db
    → has_agent w.db.tables sender ≡ true
    → has_message w.db.tables env.uuid ≡ false
    → IsKept (send_message env req sender w).1.db
send_message-IsKept env req sender w p known new =
    let ends = send_message-Ends env req sender w p.0 known new in
    elim (Option-cases (refusal env req sender w)) [
      | inr ((code, detail), e) ↦
          let (r, _, d, _, _) : Ends (some (code, detail)) sender w
              (send_message env req sender w) =
            rw e at ends in
          subst IsKept (sym d) p
      | inl e ↦
          let (msg, r) : Ends none sender w (send_message env req sender w) = rw e at ends in
          let s =
            send_message-IsSent env req sender w (λ i. (r i, (send_message env req sender w).1)) in
          deliver-IsKept env env.uuid (message_receive msg) sender s.to req.room_id
            (after_store env sender s.to req (after_rate env sender w))
            (stored-IsKept env sender s.to req (after_rate env sender w) s.fits p.0) s.done
    ]
