-- ===== src/OfflineQueue/Flush.antt =====
-- What `flush_for_agent` hands out (src/claw_msg/server/offline_queue.py).
use claw_msg.Prelude.{
  ℕ, ◌≤◌, ◌≡◌, refl, sym, ◌∙◌, String, Bool, true, false, ◌&&◌, List, [], ◌∷◌, arith, ◌==◌, eq_iff,
  any, map, filter, is_empty, Bool-cases, Option-cases, inl, inr,
}
use claw_msg.Schema.{MessageRow, QueueRow, Tables, Db, commit, message_is, has_message}
use claw_msg.Table.{find_first, insert_by, order_by}
use claw_msg.Table.Laws.{any-find_first, find_first_fits, any_update_self, any_implies, filter_none}
use claw_msg.Table.Order.{IsSorted, order_by-IsSorted, any-order_by}
use claw_msg.Exec.{MsgData}
use claw_msg.OfflineQueue.{
  is_due, is_waiting, msg_data, join_messages, created, pending_for, hand_out, mark_delivered,
  flush_for_agent,
}

abbrev pub data_is : String → MsgData → Bool
data_is m d = d.id == m

abbrev pub entry_is : String → QueueRow → Bool
entry_is m q = q.message_id == m

pub any-map_data :
    (t : Tables) (m : String) (rows : List MessageRow)
    → any (data_is m) (map (msg_data t) rows) ≡ any (message_is m) rows
unfolding any msg_data
any-map_data t m [] = refl
any-map_data t m (r ∷ rows) = ground (arith, any-map_data t m rows)

any-join_messages :
    (m : String) (ms : List MessageRow) (qs : List QueueRow)
    → any (message_is m) (join_messages ms qs) ≡ (any (entry_is m) qs && any (message_is m) ms)
unfolding any join_messages
any-join_messages m ms [] = refl
any-join_messages m ms (q ∷ qs) = elim (Option-cases (find_first (message_is q.message_id) ms)) [
  | inl e ↦ rw e (
      ground (
        arith,
        any-join_messages m ms qs,
        any-find_first (message_is q.message_id) ms,
        eq_iff q.message_id m,
      ))
  | inr (r, e) ↦ rw e (
      ground (
        arith,
        any-join_messages m ms qs,
        any-find_first (message_is q.message_id) ms,
        find_first_fits (message_is q.message_id) ms {r = r} e,
        eq_iff q.message_id m,
        eq_iff r.id q.message_id,
        eq_iff r.id m,
      ))
]

-- The messages that a flush hands out are, in the order of their times, exactly those of the table
-- that have an entry for the agent which is pending and not expired.
pub flush_for_agent_lem :
    (agent : String) (now : ℕ) (db : Db)
    → let msgs = (flush_for_agent agent now db).0 in
      let rows = pending_for agent now db.tables in
      (msgs ≡ map (msg_data db.tables) rows)
      × IsSorted created rows
      × ((m : String)
          → any (data_is m) msgs ≡ (
              any (entry_is m) (filter (is_due agent now) db.tables.delivery_queue)
              && has_message db.tables m))
unfolding flush_for_agent pending_for has_message
flush_for_agent_lem agent now db = (
  refl,
  order_by-IsSorted created _,
  λ m.
      any-map_data db.tables m _
      ∙ any-order_by created (message_is m) _
      ∙ any-join_messages m db.tables.messages (filter (is_due agent now) db.tables.delivery_queue),
)

is_empty-insert_by :
    (r : MessageRow) (rows : List MessageRow) → is_empty (insert_by created r rows) ≡ false
unfolding insert_by
is_empty-insert_by r [] = refl
is_empty-insert_by r (s ∷ rows) = ground arith

is_empty-order_by : (rows : List MessageRow) → is_empty (order_by created rows) ≡ is_empty rows
unfolding order_by
is_empty-order_by [] = refl
is_empty-order_by (r ∷ rows) = is_empty-insert_by r (order_by created rows)

join_later :
    (p p' : QueueRow → Bool) (ms : List MessageRow) (qs : List QueueRow)
    → ((q : QueueRow) → p' q ≡ true → p q ≡ true)
    → is_empty (join_messages ms (filter p qs)) ≡ true
    → is_empty (join_messages ms (filter p' qs)) ≡ true
unfolding join_messages filter
join_later p p' ms [] h e = e
join_later p p' ms (q ∷ qs) h e = elim (Option-cases (find_first (message_is q.message_id) ms)) [
  | inl n ↦ ground (arith, join_later p p' ms qs h, h q)
  | inr (r, n) ↦ ground (arith, join_later p p' ms qs h, h q)
]

is_empty→nil : (rows : List MessageRow) → is_empty rows ≡ true → rows ≡ []
is_empty→nil [] h = refl
is_empty→nil (r ∷ rows) h = cc

is_due_later :
    (agent : String) (now now' : ℕ) (q : QueueRow)
    → now ≤ now'
    → is_due agent now' q ≡ true
    → is_due agent now q ≡ true
is_due_later agent now now' q h d = ground arith

pending_for_later :
    (agent : String) (now now' : ℕ) (t : Tables)
    → now ≤ now'
    → is_empty (pending_for agent now t) ≡ true
    → pending_for agent now' t ≡ []
unfolding pending_for
pending_for_later agent now now' t h e = is_empty→nil _ (
    is_empty-order_by _
    ∙ join_later (is_due agent now) (is_due agent now') t.messages t.delivery_queue
        (λ q. is_due_later agent now now' q h) (sym (is_empty-order_by _) ∙ e))

not_due :
    (agent : String) (now : ℕ) (q : QueueRow)
    → is_due agent now q ≡ true
    → is_waiting agent q ≡ true
not_due agent now q h = ground arith

any-false :
    (p q : QueueRow → Bool) (rows : List QueueRow)
    → ((r : QueueRow) → p r ≡ true → q r ≡ true)
    → any q rows ≡ false
    → any p rows ≡ false
any-false p q rows h e = ground (arith, any_implies p q rows h)

pending_for_marked :
    (agent : String) (now : ℕ) (t : Tables) → pending_for agent now (mark_delivered agent t) ≡ []
unfolding pending_for join_messages order_by
pending_for_marked agent now t =
    let none_waits : any (is_waiting agent) (mark_delivered agent t).delivery_queue ≡ false =
      any_update_self (is_waiting agent) hand_out t.delivery_queue (λ q. ground arith) in
    let none_due =
      any-false (is_due agent now) (is_waiting agent) _ (not_due agent now) none_waits in
    rw (filter_none (is_due agent now) _ none_due)

-- A flush leaves nothing to hand out: a later one gives the agent no message again.
pub flush_twice :
    (agent : String) (now now' : ℕ) (db : Db)
    → now ≤ now'
    → (flush_for_agent agent now' (flush_for_agent agent now db).1).0 ≡ []
unfolding flush_for_agent commit
flush_twice agent now now' db h = elim (Bool-cases (is_empty (pending_for agent now db.tables))) [
  | inl e ↦ rw (e, pending_for_later agent now now' db.tables h e)
  | inr e ↦ rw (e, pending_for_marked agent now' db.tables)
]
