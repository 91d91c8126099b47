-- ===== src/Tests/OfflineQueue.antt =====
-- Runs of the delivery queue.
use claw_msg.Prelude.{
  ℕ, ◌≤◌, ◌⊎◌, ◌≡◌, refl, String, true, ◌&&◌, none, some, [], ◌∷◌, arith, any, map, filter, ◌==◌,
}
use claw_msg.Schema.{MessageRow, QueueRow, Db, pending, acked, has_message, queue_is, commit}
use claw_msg.Table.{find_first, count_where, delete_where}
use claw_msg.Table.Order.{IsSorted}
use claw_msg.OfflineQueue.{
  flush_for_agent, pending_for, is_due, msg_data, created, has_expired, cleanup_expired,
  run_cleanup_loop,
}
use claw_msg.OfflineQueue.Flush.{data_is, entry_is, flush_for_agent_lem, flush_twice}
use claw_msg.OfflineQueue.Expiry.{flush_after_cleanups}
use claw_msg.OfflineQueue.Status.{status_of, may_follow}
use claw_msg.OfflineQueue.Life.{expire, Expires, entries_of, run_call, run_call-may_follow}
use claw_msg.Tests.Sample.{world, tables}

abbrev message : String → ℕ → MessageRow
message id at = record {
  id = id;
  from_agent = "b1";
  to_agent = some "c1";
  room_id = none;
  content = id;
  content_type = "text/plain";
  reply_to = none;
  created_at = at;
}

abbrev entry : String → ℕ → QueueRow
entry id until = record {
  message_id = id;
  agent_id = "c1";
  status = pending;
  attempts = 0;
  expires_at = until;
}

abbrev acked_entry : QueueRow
acked_entry = record {
  message_id = "x3";
  agent_id = "c1";
  status = acked;
  attempts = 1;
  expires_at = 90;
}

-- Two messages for Carol, of which the older was queued last, one that has expired, and one acked.
abbrev db : Db
db = record {
  tables = record tables {
    messages = message "x1" 8 ∷ message "x2" 4 ∷ message "x0" 1 ∷ message "x3" 2 ∷ [];
    delivery_queue = entry "x1" 90 ∷ entry "x2" 80 ∷ entry "x0" 20 ∷ acked_entry ∷ [];
  };
  durable = tables;
}

oldest_first : map (λ d. d.id) (flush_for_agent "c1" 50 db).0 ≡ "x2" ∷ "x1" ∷ []
unfolding flush_for_agent pending_for msg_data claw_msg.OfflineQueue.join_messages
    claw_msg.Table.order_by claw_msg.Table.insert_by find_first filter ◌==◌
oldest_first = refl

flush_for_agent_example :
    let msgs = (flush_for_agent "c1" 50 db).0 in
    let rows = pending_for "c1" 50 db.tables in
    (msgs ≡ map (msg_data db.tables) rows)
    × IsSorted created rows
    × ((m : String)
        → any (data_is m) msgs ≡ (
            any (entry_is m) (filter (is_due "c1" 50) db.tables.delivery_queue)
            && has_message db.tables m))
flush_for_agent_example = flush_for_agent_lem "c1" 50 db

flush_twice_example : (flush_for_agent "c1" 60 (flush_for_agent "c1" 50 db).1).0 ≡ []
flush_twice_example = flush_twice "c1" 50 60 db (omega arith)

flush_after_cleanups_example :
    (flush_for_agent "c1" 60 (run_cleanup_loop (30 ∷ 55 ∷ []) db)).0
    ≡ (flush_for_agent "c1" 60 db).0
flush_after_cleanups_example = flush_after_cleanups "c1" (30 ∷ 55 ∷ []) 60 db (omega arith)

one_entry : entries_of "x0" "c1" db ≤ 1
unfolding entries_of count_where ◌==◌
one_entry = omega arith

-- The entry that has expired at 20 is gone by a removal at 20.
run_call-may_follow_example :
    let after = (run_call (expire 20) (record world { db = db })).db in
    (entries_of "x0" "c1" after ≤ 1)
    × ((may_follow (status_of "x0" "c1" db) (status_of "x0" "c1" after) ≡ true)
        ⊎ ((q : QueueRow) × (find_first (queue_is "x0" "c1") db.tables.delivery_queue ≡ some q)
            × Expires (expire 20) q
            × (status_of "x0" "c1" after ≡ none)))
run_call-may_follow_example =
    run_call-may_follow "x0" "c1" (expire 20) (record world { db = db }) one_entry

gone_at_20 : status_of "x0" "c1" (run_call (expire 20) (record world { db = db })).db ≡ none
unfolding status_of run_call cleanup_expired delete_where filter find_first commit ◌==◌
gone_at_20 = refl
