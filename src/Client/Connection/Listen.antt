-- ===== src/Client/Connection/Listen.antt =====
-- `connect` and `listen` of a `Connection` (src/claw_msg/client/connection.py).
use claw_msg.Prelude.{
  ℕ, ◌*◌, String, Bool, true, false, Option, none, some, List, [], ◌∷◌, ◌++◌, min, if◌then◌else◌,
}
use claw_msg.Json.{Json, Fields, get_field}
use claw_msg.Client.Connection.{
  Listener, Traffic, auth_frame, FrameEnd, goes_on, fails, is_cancelled, send_frame, fields_of,
  has_type, process_raw,
}

-- How the frames end: the peer closes, the connection is lost, `close` is called, the task is
-- cancelled.
pub data StreamEnd : Type 0 where
  finished lost closed cancelled : StreamEnd

-- What becomes of one connection: it is refused, or the login is answered and frames come.
pub data Attempt : Type 0 where
  refused : Attempt
  answered : Option Json → List (Option Json) → StreamEnd → Attempt

-- `reconnect_delay` and `max_reconnect_delay`
pub record Delays : Type 0 where
  pub reconnect_delay : ℕ
  pub max_reconnect_delay : ℕ

-- The loop: `slept` are the pauses it has made.
pub record Loop : Type 0 where
  pub delay : ℕ
  pub running : Bool
  pub agent_id : Option Json
  pub traffic : Traffic
  pub slept : List ℕ

-- The id that the answer to the login names, if it is `auth.ok` and does; else `connect` raises.
abbrev pub agent_id_in : Option Fields → Option Json
agent_id_in none = none
agent_id_in (some ps) = get_field "agent_id" ps

abbrev pub payload_id : Option Json → Option Json
payload_id none = none
payload_id (some p) = agent_id_in (fields_of p)

abbrev pub id_if_ok : Option Fields → Option Json
id_if_ok none = none
id_if_ok (some fs) = if has_type "auth.ok" fs then payload_id (get_field "payload" fs) else none

unfoldable pub login_id : Option Json → Option Json
login_id none = none
login_id (some resp) = id_if_ok (fields_of resp)

-- A frame that raises ends the stream; `rest` is what follows otherwise.
abbrev pub stop_or : StreamEnd × Traffic → FrameEnd × Traffic → StreamEnd × Traffic
stop_or rest (goes_on, t) = rest
stop_or rest (fails, t) = (lost, t)
stop_or rest (is_cancelled, t) = (cancelled, t)

-- The frames, up to the first that raises.
unfoldable pub run_frames :
    Listener → List (Option Json) → StreamEnd → Traffic → StreamEnd × Traffic
run_frames l [] e t = (e, t)
run_frames l (raw ∷ raws) e t = let o = process_raw l raw t in stop_or (run_frames l raws e o.1) o

abbrev pub runs_on : StreamEnd → Bool
runs_on finished = true
runs_on lost = true
runs_on closed = false
runs_on cancelled = false

-- The end of a round: the pause, if the loop goes on.
unfoldable pub pause : Delays → Loop → Loop
pause d s =
    if s.running
    then record s {
      slept = s.slept ++ (s.delay ∷ []);
      delay = min (s.delay * 2) d.max_reconnect_delay;
    }
    else s

abbrev pub after_frames : StreamEnd × Traffic → Loop → Loop
after_frames (e, t) s = record s { running = runs_on e; traffic = t }

-- After the answer to the login.
abbrev pub logged_in :
    Delays → Listener → Option Json → List (Option Json) → StreamEnd → Loop → Loop
logged_in d l none raws e s = s
logged_in d l (some id) raws e s =
    after_frames (run_frames l raws e s.traffic)
      (record s { agent_id = some id; delay = d.reconnect_delay })

abbrev pub attempt : Delays → Listener → String → Attempt → Loop → Loop
attempt d l token refused s = s
attempt d l token (answered resp raws e) s =
    logged_in d l (login_id resp) raws e
      (record s { traffic = send_frame (auth_frame token) s.traffic })

-- `while self._running`; the script ends where the run that it tells of does.
unfoldable pub listen_loop : Delays → Listener → String → List Attempt → Loop → Loop
listen_loop d l token [] s = s
listen_loop d l token (a ∷ later) s =
    if s.running then listen_loop d l token later (pause d (attempt d l token a s)) else s

-- `listen` on a connection that is up already reads its frames first, and does not set the delay anew.
unfoldable pub listen :
    Delays
    → Listener
    → String
    → Option (List (Option Json) × StreamEnd)
    → List Attempt
    → Traffic
    → Loop
listen d l token none script t =
    listen_loop d l token script (record {
      delay = d.reconnect_delay;
      running = true;
      agent_id = none;
      traffic = t;
      slept = [];
    })
listen d l token (some (raws, e)) script t = listen_loop d l token script (
    pause d (
      after_frames (run_frames l raws e t) (record {
        delay = d.reconnect_delay;
        running = true;
        agent_id = none;
        traffic = t;
        slept = [];
      })))
