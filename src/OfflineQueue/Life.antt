-- ===== src/OfflineQueue/Life.antt =====
-- The calls that change the queue, and the life of an entry under them
-- (src/claw_msg/server/offline_queue.py).
use claw_msg.Prelude.{
  ℕ, ◌≤◌, ◌≡◌, refl, ◌⊎◌, String, Bool, true, false, ◌&&◌, some, none, List, [], ◌∷◌, ◌++◌, arith,
  any, is_empty, Bool-cases, inl, inr, eq_iff, ◌==◌,
}
use claw_msg.Schema.{QueueRow, Db, commit, queue_is, has_queued, queue_refers}
use claw_msg.Table.{find_first, count_where}
use claw_msg.Table.Laws.{
  count_where-append, count_where-update_where, count_where-delete_le, count_none,
}
use claw_msg.Exec.{Env, World}
use claw_msg.OfflineQueue.{
  is_waiting, enqueue, flush_for_agent, mark_acked, hand_out, ack, queue_row, pending_for,
  has_expired, cleanup_expired,
}
use claw_msg.OfflineQueue.Status.{
  status_of, may_follow, queue_after_enqueue, status_of-enqueue, status_of-flush, status_of-ack,
  status_of-cleanup_expired,
}

-- The calls that change the queue; the last is the removal of what has expired by a time.
pub data Call : Type 0 where
  put_in : Env → String → String → Call
  flush : String → ℕ → Call
  acked_by : String → String → Call
  expire : ℕ → Call

unfoldable pub run_call : Call → World → World
run_call (put_in env m a) w = (enqueue env m a w).1
run_call (flush a now) w = record w { db = (flush_for_agent a now w.db).1 }
run_call (acked_by m a) w = record w { db = mark_acked m a w.db }
run_call (expire now) w = record w { db = cleanup_expired now w.db }

-- The call is a removal, at a time that is not before the one at which the entry expires.
abbrev pub Expires : Call → QueueRow → Type 0
Expires (put_in env m a) q = ⊥
Expires (flush a now) q = ⊥
Expires (acked_by m a) q = ⊥
Expires (expire now) q = q.expires_at ≤ now

-- How many entries a message and an agent have.
unfoldable pub entries_of : String → String → Db → ℕ
entries_of m a db = count_where (queue_is m a) db.tables.delivery_queue

count_single : (p : QueueRow → Bool) (q : QueueRow) → count_where p (q ∷ []) ≤ 1
unfolding count_where
count_single p q = ground arith

same_pair : (m a m' agent : String) → ((m' == m) && (agent == a)) ≡ true → (m' ≡ m) × (agent ≡ a)
same_pair m a m' agent h = ((eq_iff m' m).0 (ground arith), (eq_iff agent a).0 (ground arith))

entries_of-append :
    (m a m' agent : String) (env : Env) (q : List QueueRow)
    → any (queue_is m' agent) q ≡ false
    → count_where (queue_is m a) q ≤ 1
    → count_where (queue_is m a) (q ++ queue_row env m' agent ∷ []) ≤ 1
unfolding count_where
entries_of-append m a m' agent env q new one =
    elim (Bool-cases (queue_is m a (queue_row env m' agent))) [
      | inr e ↦ ground (arith, count_where-append (queue_is m a) q (queue_row env m' agent ∷ []))
      | inl e ↦
          let (p, r) = same_pair m a m' agent e in
          let zero_of = count_none (queue_is m a) q (rw (p, r) at new) in
          omega (
            arith,
            count_where-append (queue_is m a) q (queue_row env m' agent ∷ []),
            count_single (queue_is m a) (queue_row env m' agent),
          )
    ]

entries_of-enqueue :
    (m a m' agent : String) (env : Env) (w : World)
    → entries_of m a w.db ≤ 1
    → entries_of m a (enqueue env m' agent w).1.db ≤ 1
unfolding entries_of has_queued
entries_of-enqueue m a m' agent env w one =
    let q = w.db.tables.delivery_queue in
    rw queue_after_enqueue (elim (Bool-cases (has_queued w.db.tables m' agent)) [
      | inl e ↦ rw e one
      | inr e ↦ elim (Bool-cases (queue_refers w.db.tables (queue_row env m' agent))) [
        | inl r ↦ rw (e, r) (entries_of-append m a m' agent env q e one)
        | inr r ↦ rw (e, r) one
      ]
    ])

entries_of-flush :
    (m a agent : String) (now : ℕ) (db : Db)
    → entries_of m a (flush_for_agent agent now db).1 ≡ entries_of m a db
unfolding entries_of flush_for_agent commit
entries_of-flush m a agent now db = elim (Bool-cases (is_empty (pending_for agent now db.tables))) [
  | inl e ↦ rw e refl
  | inr e ↦ rw e (
      count_where-update_where (is_waiting agent) (queue_is m a) hand_out db.tables.delivery_queue
        (λ r. refl))
]

entries_of-ack :
    (m a m' agent : String) (db : Db) → entries_of m a (mark_acked m' agent db) ≡ entries_of m a db
unfolding entries_of mark_acked commit
entries_of-ack m a m' agent db =
    count_where-update_where (queue_is m' agent) (queue_is m a) ack db.tables.delivery_queue
      (λ r. refl)

entries_of-cleanup_expired :
    (m a : String) (now : ℕ) (db : Db) → entries_of m a (cleanup_expired now db) ≤ entries_of m a db
unfolding entries_of cleanup_expired commit
entries_of-cleanup_expired m a now db =
    count_where-delete_le (queue_is m a) (has_expired now) db.tables.delivery_queue

-- A message and an agent never have two entries, whatever the call, if they have not had two before.
run_call-single :
    (m a : String) (c : Call) (w : World)
    → entries_of m a w.db ≤ 1
    → entries_of m a (run_call c w).db ≤ 1
unfolding run_call
run_call-single m a (put_in env m' agent) w one = entries_of-enqueue m a m' agent env w one
run_call-single m a (flush agent now) w one = omega (arith, entries_of-flush m a agent now w.db)
run_call-single m a (acked_by m' agent) w one = omega (arith, entries_of-ack m a m' agent w.db)
run_call-single m a (expire now) w one = omega (arith, entries_of-cleanup_expired m a now w.db)

run_call-moves :
    (m a : String) (c : Call) (w : World)
    → entries_of m a w.db ≤ 1
    → (may_follow (status_of m a w.db) (status_of m a (run_call c w).db) ≡ true)
      ⊎ ((q : QueueRow) × (find_first (queue_is m a) w.db.tables.delivery_queue ≡ some q)
          × Expires c q
          × (status_of m a (run_call c w).db ≡ none))
unfolding run_call entries_of
run_call-moves m a (put_in env m' agent) w one = inl (status_of-enqueue m a m' agent env w)
run_call-moves m a (flush agent now) w one = inl (status_of-flush m a agent now w.db)
run_call-moves m a (acked_by m' agent) w one = inl (status_of-ack m a m' agent w.db)
run_call-moves m a (expire now) w one = status_of-cleanup_expired m a now w.db one

-- A message and an agent that have no two entries have no two after any call, of the enqueues,
-- flushes, acknowledgements and removals of expired entries. Their entry stays where it is or goes
-- forward: into the queue as pending, from pending to delivered or acked, from delivered to acked. Or
-- it is gone; then the call is a removal, and the entry expires at the time of it or before.
pub run_call-may_follow :
    (m a : String) (c : Call) (w : World)
    → entries_of m a w.db ≤ 1
    → (entries_of m a (run_call c w).db ≤ 1)
      × ((may_follow (status_of m a w.db) (status_of m a (run_call c w).db) ≡ true)
          ⊎ ((q : QueueRow) × (find_first (queue_is m a) w.db.tables.delivery_queue ≡ some q)
              × Expires c q
              × (status_of m a (run_call c w).db ≡ none)))
run_call-may_follow m a c w one = (run_call-single m a c w one, run_call-moves m a c w one)
