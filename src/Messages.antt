-- ===== src/Messages.antt =====
-- src/claw_msg/server/routes_messages.py: `POST /messages/` and `GET /messages/`. Awaits are not
-- points of interleaving: a handler runs to its end on the state that it began with.
pub mod Checks
pub mod Base
pub mod Handed
pub mod Delivery
pub mod Guarantee
pub mod Recipients
pub mod Keeping
pub mod Returns
pub mod Outcome
pub mod History
use claw_msg.Prelude.{
  ℕ, ◌/◌, String, Bool, true, false, not, ◌&&◌, ◌||◌, Option, none, some, List, [], ◌∷◌, ◌++◌, ◌==◌,
  ltb, filter, map, take, truthy, str_truthy, opt_eq, if◌then◌else◌,
}
use claw_msg.Schema.{
  AgentRow, MessageRow, MemberRow, Tables, agent_is, message_is, message_fits, has_agent,
}
use claw_msg.Table.{find_first, order_by}
use claw_msg.RateLimit.{allow}
use claw_msg.Exec.{
  MsgData, Frame, message_receive, Env, sql_now, World, http, ok, raised, Exec, pure, raise, gets,
  raise_if, insert_row, commit_db, ◌>>=◌, ◌>>◌,
}
use claw_msg.Broker.{send_to_agent}
use claw_msg.OfflineQueue.{enqueue, name_of, owner_of}
use claw_msg.MessageValidation.{
  resolve_agent_target, is_ambiguous_agent_name, get_message_target_error,
}

-- `MessageSendRequest` (common/models.py), as validated.
pub record MessageSendRequest : Type 0 where
  pub to : Option String
  pub room_id : Option String
  pub content : String
  pub content_type : String
  pub reply_to : Option String

abbrev pub no_target : MessageSendRequest → Bool
no_target req = not (truthy req.to) && not (truthy req.room_id)

abbrev pub resolved_or_raise : String → Tables → Option String → Exec (Option String)
resolved_or_raise name t (some k) = pure (some k)
resolved_or_raise name t none =
    if is_ambiguous_agent_name name t
    then raise (http 409 "Multiple agents with that name. Use UUID instead.")
    else raise (http 404 "Recipient agent not found")

-- The name-based target, resolved to an id.
abbrev pub resolve_to : Option String → Exec (Option String)
resolve_to none w = (ok none, w)
resolve_to (some name) w =
    if str_truthy name
    then resolved_or_raise name w.db.tables (resolve_agent_target name w.db.tables) w
    else (ok none, w)

abbrev pub check_rate : Env → String → Exec (Unit {0})
check_rate env sender w =
    let (b, allowed) = allow env.config.rate_limit_per_min env.monotonic sender w.buckets in
    (if allowed then ok tt else raised (http 429 "Rate limit exceeded"), record w { buckets = b })

abbrev pub raise_error : Option (ℕ × String) → Exec (Unit {0})
raise_error none = pure tt
raise_error (some (code, detail)) = raise (http code detail)

abbrev pub check_target : String → Option String → Option String → Exec (Unit {0})
check_target sender to room w = raise_error (get_message_target_error sender to room w.db.tables) w

abbrev pub message_row : Env → String → Option String → MessageSendRequest → MessageRow
message_row env sender to req = record {
  id = env.uuid;
  from_agent = sender;
  to_agent = to;
  room_id = req.room_id;
  content = req.content;
  content_type = req.content_type;
  reply_to = req.reply_to;
  created_at = sql_now env;
}

abbrev pub add_message : MessageRow → Tables → Tables
add_message r t = record t { messages = t.messages ++ r ∷ [] }

unfoldable pub store_message : Env → String → Option String → MessageSendRequest → Exec (Unit {0})
store_message env sender to req = do
  insert_row (λ t. message_fits t (message_row env sender to req))
      (add_message (message_row env sender to req))
  commit_db

abbrev pub created_of : Option MessageRow → Option ℕ
created_of none = none
created_of (some m) = some m.created_at

-- `msg_data`: the sender's label and the stored time are read back.
unfoldable pub msg_data_of : Env → String → Option String → MessageSendRequest → Tables → MsgData
msg_data_of env sender to req t =
    let row = find_first (agent_is sender) t.agents in
    record {
      id = env.uuid;
      from_agent = sender;
      from_name = name_of row;
      from_owner = owner_of row;
      to_agent = to;
      room_id = req.room_id;
      content = req.content;
      content_type = req.content_type;
      reply_to = req.reply_to;
      created_at = created_of (find_first (message_is env.uuid) t.messages);
    }

-- To one agent now, or else into its queue.
unfoldable pub deliver_one : Env → String → Frame → String → Exec (Unit {0})
deliver_one env msg_id f member w =
    let (delivered, w') = send_to_agent env.alive member f w in
    if delivered then (ok tt, w') else enqueue env msg_id member w'

unfoldable pub deliver_direct : Env → String → Frame → Option String → Exec (Unit {0})
deliver_direct env msg_id f none w = (ok tt, w)
deliver_direct env msg_id f (some to) w =
    if str_truthy to then deliver_one env msg_id f to w else (ok tt, w)

abbrev pub in_room : String → MemberRow → Bool
in_room room r = r.room_id == room

unfoldable pub members_of : String → Tables → List String
members_of room t = map (λ r. r.agent_id) (filter (in_room room) t.room_members)

unfoldable pub deliver_each : Env → String → Frame → String → List String → Exec (Unit {0})
deliver_each env msg_id f sender [] w = (ok tt, w)
deliver_each env msg_id f sender (m ∷ ms) w =
    ((if m == sender then pure tt else deliver_one env msg_id f m)
        >> deliver_each env msg_id f sender ms)
      w

unfoldable pub deliver_room : Env → String → Frame → String → Option String → Exec (Unit {0})
deliver_room env msg_id f sender none w = (ok tt, w)
deliver_room env msg_id f sender (some room) w =
    if str_truthy room
    then deliver_each env msg_id f sender (members_of room w.db.tables) w
    else (ok tt, w)

-- The two deliveries.
unfoldable pub deliver :
    Env → String → Frame → String → Option String → Option String → Exec (Unit {0})
deliver env msg_id f sender to room = do
  deliver_direct env msg_id f to
  deliver_room env msg_id f sender room

-- From the `INSERT` on.
abbrev pub store_and_deliver : Env → MessageSendRequest → String → Option String → Exec MsgData
store_and_deliver env req sender to = do
  store_message env sender to req
  msg ← gets (λ w. msg_data_of env sender to req w.db.tables)
  deliver env env.uuid (message_receive msg) sender to req.room_id
  pure msg

-- From the rate limit on.
abbrev pub check_and_send : Env → MessageSendRequest → String → Option String → Exec MsgData
check_and_send env req sender to = do
  check_rate env sender
  check_target sender to req.room_id
  store_and_deliver env req sender to

unfoldable pub send_message : Env → MessageSendRequest → String → Exec MsgData
send_message env req sender = do
  raise_if (no_target req) (http 400 "Must specify 'to' or 'room_id'")
  to ← resolve_to req.to
  check_and_send env req sender to
