-- ===== src/OfflineQueue.antt =====
-- src/claw_msg/server/offline_queue.py: the delivery queue, an entry for each message and agent.
pub mod Status
pub mod Life
pub mod Flush
pub mod Expiry
use claw_msg.Prelude.{
  ℕ, ◌+◌, String, Bool, true, false, not, ◌&&◌, Option, none, some, List, [], ◌∷◌, ◌++◌, ◌==◌, ltb,
  leb, is_empty, if◌then◌else◌, filter, map,
}
use claw_msg.Schema.{
  AgentRow, MessageRow, QueueRow, DeliveryStatus, pending, delivered, acked, Tables, Db, commit,
  agent_is, message_is, queue_is, has_queued, queue_refers,
}
use claw_msg.Table.{find_first, update_where, delete_where, order_by}
use claw_msg.Exec.{MsgData, Env, Exec, insert_or_ignore, commit_db, ◌>>=◌, ◌>>◌}

abbrev pub is_pending : DeliveryStatus → Bool
is_pending pending = true
is_pending delivered = false
is_pending acked = false

abbrev pub queue_row : Env → String → String → QueueRow
queue_row env message agent = record {
  message_id = message;
  agent_id = agent;
  status = pending;
  attempts = 0;
  expires_at = env.now + env.config.offline_queue_ttl;
}

abbrev pub add_queued : QueueRow → Tables → Tables
add_queued r t = record t { delivery_queue = t.delivery_queue ++ r ∷ [] }

unfoldable pub enqueue : Env → String → String → Exec (Unit {0})
enqueue env message agent = do
  insert_or_ignore (λ t. has_queued t message agent)
      (λ t. queue_refers t (queue_row env message agent)) (add_queued (queue_row env message agent))
  commit_db

-- The `WHERE` of the query: what is handed out.
abbrev pub is_due : String → ℕ → QueueRow → Bool
is_due agent now q = (q.agent_id == agent) && (is_pending q.status && ltb now q.expires_at)

-- The `WHERE` of the update: it has no test of the expiry.
abbrev pub is_waiting : String → QueueRow → Bool
is_waiting agent q = (q.agent_id == agent) && is_pending q.status

abbrev pub name_of : Option AgentRow → Option String
name_of none = none
name_of (some a) = some a.name

abbrev pub owner_of : Option AgentRow → Option String
owner_of none = none
owner_of (some a) = a.owner

-- The columns of the query, `LEFT JOIN agents`.
unfoldable pub msg_data : Tables → MessageRow → MsgData
msg_data t m =
    let sender = find_first (agent_is m.from_agent) t.agents in
    record {
      id = m.id;
      from_agent = m.from_agent;
      from_name = name_of sender;
      from_owner = owner_of sender;
      to_agent = m.to_agent;
      room_id = m.room_id;
      content = m.content;
      content_type = m.content_type;
      reply_to = m.reply_to;
      created_at = some m.created_at;
    }

abbrev pub cons_some {ℓ} : {A : Type ℓ} → Option A → List A → List A
cons_some none xs = xs
cons_some (some x) xs = x ∷ xs

-- `JOIN messages m ON dq.message_id = m.id`; the id is a key.
unfoldable pub join_messages : List MessageRow → List QueueRow → List MessageRow
join_messages ms [] = []
join_messages ms (q ∷ qs) =
    cons_some (find_first (message_is q.message_id) ms) (join_messages ms qs)

abbrev pub created : MessageRow → ℕ
created m = m.created_at

unfoldable pub pending_for : String → ℕ → Tables → List MessageRow
pending_for agent now t =
    order_by created (join_messages t.messages (filter (is_due agent now) t.delivery_queue))

abbrev pub hand_out : QueueRow → QueueRow
hand_out q = record q { status = delivered; attempts = q.attempts + 1 }

abbrev pub mark_delivered : String → Tables → Tables
mark_delivered agent t = record t {
  delivery_queue = update_where (is_waiting agent) hand_out t.delivery_queue;
}

unfoldable pub flush_for_agent : String → ℕ → Db → List MsgData × Db
flush_for_agent agent now db =
    let rows = pending_for agent now db.tables in
    (
      map (msg_data db.tables) rows,
      if is_empty rows then db else commit (record db { tables = mark_delivered agent db.tables }),
    )

abbrev pub ack : QueueRow → QueueRow
ack q = record q { status = acked }

abbrev pub ack_queued : String → String → Tables → Tables
ack_queued message agent t = record t {
  delivery_queue = update_where (queue_is message agent) ack t.delivery_queue;
}

unfoldable pub mark_acked : String → String → Db → Db
mark_acked message agent db = commit (record db { tables = ack_queued message agent db.tables })

abbrev pub has_expired : ℕ → QueueRow → Bool
has_expired now q = leb q.expires_at now

abbrev pub drop_expired : ℕ → Tables → Tables
drop_expired now t = record t { delivery_queue = delete_where (has_expired now) t.delivery_queue }

unfoldable pub cleanup_expired : ℕ → Db → Db
cleanup_expired now db = commit (record db { tables = drop_expired now db.tables })

-- The rounds of the loop, one for each time at which it wakes.
unfoldable pub run_cleanup_loop : List ℕ → Db → Db
run_cleanup_loop [] db = db
run_cleanup_loop (now ∷ times) db = run_cleanup_loop times (cleanup_expired now db)
