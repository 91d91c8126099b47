-- ===== src/OfflineQueue/Expiry.antt =====
-- Expired entries and their removal (src/claw_msg/server/offline_queue.py).
use claw_msg.Prelude.{
  ℕ, ◌≤◌, ◌≡◌, refl, ◌∙◌, String, false, not, ◌&&◌, List, [], ◌∷◌, arith, any, filter, All,
}
use claw_msg.Schema.{QueueRow, Tables, Db, commit}
use claw_msg.Table.{delete_where}
use claw_msg.Table.Laws.{filter-filter, filter_congr, any-delete_where, any_none}
use claw_msg.OfflineQueue.{
  is_due, has_expired, drop_expired, cleanup_expired, run_cleanup_loop, pending_for,
  flush_for_agent, msg_data,
}

due_not_expired :
    (agent : String) (now now' : ℕ) (q : QueueRow)
    → now ≤ now'
    → (is_due agent now' q && not (has_expired now q)) ≡ is_due agent now' q
due_not_expired agent now now' q h = ground arith

due-drop_expired :
    (agent : String) (now now' : ℕ) (qs : List QueueRow)
    → now ≤ now'
    → filter (is_due agent now') (delete_where (has_expired now) qs) ≡ filter (is_due agent now') qs
unfolding delete_where
due-drop_expired agent now now' qs h =
    filter-filter (is_due agent now') (λ q. not (has_expired now q)) qs
    ∙ filter_congr _ _ qs (λ q. due_not_expired agent now now' q h)

pending_for-drop_expired :
    (agent : String) (now now' : ℕ) (t : Tables)
    → now ≤ now'
    → pending_for agent now' (drop_expired now t) ≡ pending_for agent now' t
unfolding pending_for
pending_for-drop_expired agent now now' t h =
    rw (due-drop_expired agent now now' t.delivery_queue h)

-- The removal of what has expired leaves no expired entry, and takes nothing from a later flush.
pub cleanup_expired_lem :
    (agent : String) (now now' : ℕ) (db : Db)
    → now ≤ now'
    → (any (has_expired now) (cleanup_expired now db).tables.delivery_queue ≡ false)
      × ((flush_for_agent agent now' (cleanup_expired now db)).0
          ≡ (flush_for_agent agent now' db).0)
unfolding cleanup_expired flush_for_agent commit msg_data
cleanup_expired_lem agent now now' db h = (
  any-delete_where (has_expired now) (has_expired now) db.tables.delivery_queue
      ∙ any_none _ db.tables.delivery_queue (λ q. ground arith),
  rw (pending_for-drop_expired agent now now' db.tables h),
)

-- However often the loop has run by then, at times not after the flush, a flush hands out what it
-- would have without it.
pub flush_after_cleanups :
    (agent : String) (times : List ℕ) (now' : ℕ) (db : Db)
    → All (λ now. now ≤ now') times
    → (flush_for_agent agent now' (run_cleanup_loop times db)).0 ≡ (flush_for_agent agent now' db).0
unfolding run_cleanup_loop
flush_after_cleanups agent [] now' db h = refl
flush_after_cleanups agent (now ∷ times) now' db h =
    flush_after_cleanups agent times now' (cleanup_expired now db) h.1
    ∙ (cleanup_expired_lem agent now now' db h.0).1
