-- ===== src/Client/Agent/Lifecycle.antt =====
-- The connection of an `Agent` and its background listener (src/claw_msg/client/agent.py). How the
-- connection answers the login is a parameter; the listener itself is in Client.Connection.
use claw_msg.Prelude.{
  ℕ, ◌+◌, ◌≡◌, refl, String, Bool, true, false, Option, none, some, List, [], ◌∷◌, truthy,
  if◌then◌else◌, Bool-cases, inl, inr,
}
use claw_msg.Client.Replies.{Message, Replies, resolve_reply}
use claw_msg.Client.Http.{http_client}
use claw_msg.Client.Connection.{HandlerEnd, handled, failed, cancelled_in_handler}
use claw_msg.Client.Calls.{runtime_error, Outcome, returns, raises}
use claw_msg.Client.Agent.{AgentState, Link}

-- `_listen_task`: a task runs or is done.
pub data Task : Type 0 where
  runs ended : Task

-- The agent, its task, and how many tasks it has started.
pub record Lifecycle : Type 0 where
  pub agent : AgentState
  pub listen_task : Option Task
  pub started : ℕ

-- `_ensure_connection`
abbrev or_new_link : Option Link → Option Link
or_new_link none = some (record { connected = false; sent = [] })
or_new_link (some l) = some l

unfoldable pub ensure_connection : Lifecycle → Lifecycle
ensure_connection s = record s {
  agent = record s.agent { connection = or_new_link s.agent.connection };
}

abbrev token_text : Option String → String
token_text none = ""
token_text (some t) = t

abbrev set_connected : Option Link → Option Link
set_connected none = none
set_connected (some l) = some (record l { connected = true })

-- After `Connection.connect`.
abbrev pub logged_in_as : Outcome String → Lifecycle → Outcome (Unit {0}) × Lifecycle
logged_in_as (raises e) s = (raises e, s)
logged_in_as (returns id) s = (
  returns tt,
  record s {
    agent = record s.agent {
      connection = set_connected s.agent.connection;
      agent_id = some id;
      http = some (http_client s.agent.broker_url (token_text s.agent.token));
    };
  },
)

unfoldable pub connect : Outcome String → Lifecycle → Outcome (Unit {0}) × Lifecycle
connect login s =
    if truthy s.agent.token
    then logged_in_as login (ensure_connection s)
    else (raises (runtime_error "Must register or provide a token before connecting"), s)

abbrev is_running : Option Task → Bool
is_running none = false
is_running (some runs) = true
is_running (some ended) = false

-- `listen(background=True)`: the task that runs already, or a new one.
unfoldable pub listen_in_background : Lifecycle → Outcome (Unit {0}) × Lifecycle
listen_in_background s =
    if truthy s.agent.token
    then (
      returns tt,
      (if is_running s.listen_task
          then ensure_connection s
          else record (ensure_connection s) { listen_task = some runs; started = s.started + 1 }),
    )
    else (raises (runtime_error "Must register or provide a token before listening"), s)

-- `_run_listen_loop`, when the loop ends.
abbrev pub end_listener : Lifecycle → Lifecycle
end_listener s = record s { listen_task = none }

-- `stop`: cancel, close, and wait for the task.
unfoldable pub stop : Lifecycle → Lifecycle
stop s = record s { agent = record s.agent { connection = none; http = none }; listen_task = none }

-- `_dispatch_message`: the reply, then the handlers in order, up to the first that raises; with it
-- come those that ran.
unfoldable pub run_handlers : List (Message → HandlerEnd) → Message → HandlerEnd × ℕ
run_handlers [] m = (handled, 0)
run_handlers (h ∷ hs) m = let (e, n) = run_handlers hs m in after (h m) e n
  where
    after : HandlerEnd → HandlerEnd → ℕ → HandlerEnd × ℕ
    after handled e n = (e, n + 1)
    after failed e n = (failed, 1)
    after cancelled_in_handler e n = (cancelled_in_handler, 1)

unfoldable pub dispatch_message :
    List (Message → HandlerEnd) → ℕ → Message → Replies → (HandlerEnd × ℕ) × Replies
dispatch_message handlers now m s = (run_handlers handlers m, (resolve_reply now m s).1)

-- A second call in the background starts no second listener.
pub listen_in_background_twice :
    (s : Lifecycle)
    → (listen_in_background (listen_in_background s).1).1.started
      ≡ (listen_in_background s).1.started
unfolding listen_in_background ensure_connection
listen_in_background_twice s = elim (Bool-cases (truthy s.agent.token)) [
  | inr e ↦ rw (e, e) refl
  | inl e ↦ elim (Bool-cases (is_running s.listen_task)) [
    | inl r ↦ rw (e, r, e, r) refl
    | inr r ↦ rw (e, r, e) refl
  ]
]
