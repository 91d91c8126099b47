-- ===== src/Exec/State.antt =====
-- The state that the handlers share: the connection to the database, the singletons `broker` and
-- `rate_limiter`, and the frames that have been sent (src/claw_msg/server).
use claw_msg.Prelude.{ℕ, ◌/◌, String, Bool, Option, List}
use claw_msg.Prelude.Dict.{Dict}
use claw_msg.Schema.{Db}
use claw_msg.RateLimit.{Buckets}

-- The payload of `message.receive`, and the body of the reply to `POST /messages/`.
pub record MsgData : Type 0 where
  pub id : String
  pub from_agent : String
  pub from_name : Option String
  pub from_owner : Option String
  pub to_agent : Option String
  pub room_id : Option String
  pub content : String
  pub content_type : String
  pub reply_to : Option String
  pub created_at : Option ℕ

-- The frames that the broker sends (src/claw_msg/common/protocol.py), and the close codes.
pub data Frame : Type 0 where
  auth_ok : String → Frame
  auth_fail : Frame
  message_receive : MsgData → Frame
  message_ack : String → Frame
  ping pong : Frame
  error : ℕ → String → Frame
  close_frame : ℕ → Frame

-- A WebSocket is known by a number.
abbrev pub Socket : Type 0
Socket = ℕ

-- `WebSocketBroker._connections`, a `defaultdict(list)`.
abbrev pub Connections : Type 0
Connections = Dict (List Socket)

pub record World : Type 0 where
  pub db : Db
  pub connections : Connections
  pub buckets : Buckets
  pub wire : List (Socket × Frame)

-- server/config.py: what the environment variables set. Times are in microseconds.
pub record Config : Type 0 where
  pub rate_limit_per_min : ℕ
  pub offline_queue_ttl : ℕ
  pub admin_key : String

-- What a request is given from outside: the settings, the two clocks, the next `uuid4()`, and
-- which sockets still take a `send_text` (on the others it raises).
pub record Env : Type 0 where
  pub config : Config
  pub now : ℕ
  pub monotonic : ℕ
  pub uuid : String
  pub alive : Socket → Bool

-- SQLite's `datetime('now')`, in whole seconds.
abbrev pub sql_now : Env → ℕ
sql_now env = env.now / 1000000
