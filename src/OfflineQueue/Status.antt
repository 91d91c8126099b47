-- ===== src/OfflineQueue/Status.antt =====
-- The life of an entry: pending, delivered, acked (src/claw_msg/server/offline_queue.py).
use claw_msg.Prelude.{
  ℕ, ◌≤◌, ◌≡◌, refl, ◌⊎◌, String, Bool, true, false, not, Option, none, some, [], ◌∷◌, ◌++◌, arith,
  is_empty, if◌then◌else◌, Bool-cases, inl, inr,
}
use claw_msg.Schema.{
  QueueRow, DeliveryStatus, pending, delivered, acked, Db, commit, queue_is, has_queued,
  queue_refers,
}
use claw_msg.Table.{find_first, count_where}
use claw_msg.Table.Laws.{find_first-update_where, find_first-append, find_first-delete_only}
use claw_msg.Exec.{Env, World}
use claw_msg.OfflineQueue.{
  is_pending, is_waiting, enqueue, flush_for_agent, mark_acked, hand_out, ack, queue_row,
  pending_for, has_expired, cleanup_expired,
}

abbrev pub status_or_none : Option QueueRow → Option DeliveryStatus
status_or_none none = none
status_or_none (some q) = some q.status

-- The status of the entry of a message and an agent.
unfoldable pub status_of : String → String → Db → Option DeliveryStatus
status_of m a db = status_or_none (find_first (queue_is m a) db.tables.delivery_queue)

-- Where an entry may go: forward, and into the queue as pending.
unfoldable pub may_follow : Option DeliveryStatus → Option DeliveryStatus → Bool
may_follow none none = true
may_follow none (some s) = is_pending s
may_follow (some s) none = false
may_follow (some pending) (some s) = true
may_follow (some delivered) (some s) = not (is_pending s)
may_follow (some acked) (some acked) = true
may_follow (some acked) (some pending) = false
may_follow (some acked) (some delivered) = false

may_follow_refl : (o : Option DeliveryStatus) → may_follow o o ≡ true
unfolding may_follow
may_follow_refl none = refl
may_follow_refl (some pending) = refl
may_follow_refl (some delivered) = refl
may_follow_refl (some acked) = refl

abbrev update_found : (QueueRow → Bool) → (QueueRow → QueueRow) → Option QueueRow → Option QueueRow
update_found p f o = elim o [ none ↦ none | some r ↦ some (if p r then f r else r) ]

follow_hand_out :
    (agent : String) (o : Option QueueRow)
    → may_follow (status_or_none o) (status_or_none (update_found (is_waiting agent) hand_out o))
      ≡ true
unfolding may_follow
follow_hand_out agent none = refl
follow_hand_out agent (some q) = ground arith

pub status_of-flush :
    (m a agent : String) (now : ℕ) (db : Db)
    → may_follow (status_of m a db) (status_of m a (flush_for_agent agent now db).1) ≡ true
unfolding status_of flush_for_agent commit
status_of-flush m a agent now db = elim (Bool-cases (is_empty (pending_for agent now db.tables))) [
  | inl e ↦ rw e (may_follow_refl _)
  | inr e ↦
      rw (e, find_first-update_where)
        (follow_hand_out agent (find_first (queue_is m a) db.tables.delivery_queue))
]

pub status_of-ack :
    (m a m' agent : String) (db : Db)
    → may_follow (status_of m a db) (status_of m a (mark_acked m' agent db)) ≡ true
unfolding status_of mark_acked commit may_follow
status_of-ack m a m' agent db = ground (
  arith,
  find_first-update_where (queue_is m' agent) (queue_is m a) ack db.tables.delivery_queue
      (λ r. refl),
)

-- An entry is added if there is none, and if its message and its agent exist.
pub queue_after_enqueue :
    (env : Env) (m agent : String) (w : World)
    → let q = w.db.tables.delivery_queue in
      (enqueue env m agent w).1.db.tables.delivery_queue ≡ (
        if has_queued w.db.tables m agent
        then q
        else (if queue_refers w.db.tables (queue_row env m agent)
            then q ++ queue_row env m agent ∷ []
            else q))
unfolding enqueue commit
queue_after_enqueue env m agent w = ground arith

follow_append :
    (m a : String) (o o' : Option QueueRow)
    → (o' ≡ none) ⊎ ((q : QueueRow) × (o' ≡ some q) × (q.status ≡ pending))
    → may_follow (status_or_none o) (status_or_none (elim o [ none ↦ o' | some r ↦ some r ])) ≡ true
unfolding may_follow
follow_append m a none o' (inl e) = rw e
follow_append m a none o' (inr (q, e, p)) = rw (e, p)
follow_append m a (some r) o' h = may_follow_refl (some r.status)

find_new :
    (m a m' agent : String) (env : Env)
    → (find_first (queue_is m a) (queue_row env m' agent ∷ []) ≡ none)
      ⊎ ((q : QueueRow) × (find_first (queue_is m a) (queue_row env m' agent ∷ []) ≡ some q)
          × (q.status ≡ pending))
unfolding find_first
find_new m a m' agent env = elim (Bool-cases (queue_is m a (queue_row env m' agent))) [
  | inl e ↦ inr (queue_row env m' agent, rw e, refl)
  | inr e ↦ inl (rw e)
]

pub status_of-enqueue :
    (m a m' agent : String) (env : Env) (w : World)
    → may_follow (status_of m a w.db) (status_of m a (enqueue env m' agent w).1.db) ≡ true
unfolding status_of
status_of-enqueue m a m' agent env w =
    let q = w.db.tables.delivery_queue in
    let new = queue_row env m' agent in
    rw queue_after_enqueue (elim (Bool-cases (has_queued w.db.tables m' agent)) [
      | inl e ↦ rw e (may_follow_refl _)
      | inr e ↦ elim (Bool-cases (queue_refers w.db.tables new)) [
        | inl r ↦
            rw (e, r, find_first-append)
              (follow_append m a (find_first (queue_is m a) q) _ (find_new m a m' agent env))
        | inr r ↦ rw (e, r) (may_follow_refl _)
      ]
    ])

expired_or_kept :
    (m a : String) (now : ℕ) (o o' : Option QueueRow)
    → o' ≡ (elim o [ none ↦ none | some q ↦ if has_expired now q then none else some q ])
    → (may_follow (status_or_none o) (status_or_none o') ≡ true)
      ⊎ ((q : QueueRow) × (o ≡ some q) × (q.expires_at ≤ now) × (status_or_none o' ≡ none))
expired_or_kept m a now none o' e = inl (rw e (may_follow_refl none))
expired_or_kept m a now (some q) o' e = elim (Bool-cases (has_expired now q)) [
  | inl x ↦ inr (q, refl, ground arith, rw (e, x) refl)
  | inr x ↦ inl (rw (e, x) (may_follow_refl (some q.status)))
]

pub status_of-cleanup_expired :
    (m a : String) (now : ℕ) (db : Db)
    → count_where (queue_is m a) db.tables.delivery_queue ≤ 1
    → (may_follow (status_of m a db) (status_of m a (cleanup_expired now db)) ≡ true)
      ⊎ ((q : QueueRow) × (find_first (queue_is m a) db.tables.delivery_queue ≡ some q)
          × (q.expires_at ≤ now)
          × (status_of m a (cleanup_expired now db) ≡ none))
unfolding status_of cleanup_expired commit
status_of-cleanup_expired m a now db one =
    expired_or_kept m a now _ _
      (find_first-delete_only (has_expired now) (queue_is m a) db.tables.delivery_queue one)
