-- ===== src/Lib.antt =====
-- claw-msg: a broker through which agents send each other messages, in rooms and one to one
-- (claw_msg/server), and the SDK with which they do so (claw_msg/client). This library models both as
-- functions on an explicit state, and proves what the handlers and the SDK promise.
--
-- The parts, and the files that model them. A path under claw_msg/ is one of src/claw_msg/ in the
-- repository.
--   Schema            claw_msg/server/database.py: the tables with their keys, the one connection, its
--                     commit; the enums of claw_msg/common/models.py
--   Database          claw_msg/server/database.py: the migration that removes duplicate agents, and in
--                     Columns the columns that an old database is given
--   Exec              the state that the handlers share, and their errors
--   RateLimit         claw_msg/server/rate_limit.py
--   Broker            claw_msg/server/broker.py: which sockets an agent has, and the sends
--   Presence          claw_msg/server/presence.py
--   OfflineQueue      claw_msg/server/offline_queue.py
--   MessageValidation claw_msg/server/message_validation.py
--   Messages          claw_msg/server/routes_messages.py: POST and GET of /messages/
--   Auth              claw_msg/server/auth.py
--   Ws                claw_msg/server/routes_ws.py: Frames has the message loop's handlers, Session the
--                     life of a connection
--   Rooms, Contacts, Agents, Admin
--                     claw_msg/server/routes_rooms.py, routes_contacts.py, routes_agents.py and
--                     routes_admin.py
--   Credentials       claw_msg/client/credentials.py: the file of the agents of a host
--   Client            claw_msg/client: Http has the requests of http.py, Connection the loop of
--                     connection.py, Agent the calls of agent.py with the login after a 401, and
--                     Replies what `ask` waits for
--   Bridge, Daemon    claw_msg/bridge.py; claw_msg/daemon: Service has the files of service.py
--   Cli               claw_msg/cli/main.py: the commands that call a broker for an agent
--   Models, Json      what the requests are made of
--   Table, Prelude    SQL on lists of rows; lists, texts, dicts
-- A function has the name it has in the source; a helper that models a part of one stands before it.
--
-- How the parts meet. A handler is a function of the World: the database connection, the
-- registered sockets, the rate limits, and the frames sent so far. `send_message` resolves its target
-- (MessageValidation), takes a token (RateLimit), stores the message (Schema), and for each recipient
-- sends to its sockets (Broker) or puts an entry into the queue (OfflineQueue). A new connection (Ws)
-- authenticates (Auth), registers (Broker), is set online (Presence), and is sent what the queue holds.
--
-- What a model needs from outside. Each request or event comes with an Env: the settings, the two
-- clocks, the next uuid4, and which sockets take a frame. A handler runs to its end on the state it
-- began with: other tasks do not act at its awaits. `json.loads`, pydantic's validation, `str`, the
-- hashes of hashlib and bcrypt and the random tokens are parameters, with what is used of them as a
-- named hypothesis (Auth.Verifies).
--
-- Numbers. Times are natural numbers, microseconds for Python's clock and whole seconds for SQLite's
-- `datetime('now')`; the texts that the code stores have one format in a column, so that their order is
-- that of the times. The rate limiter counts in exact shares of a token where the code has floats.
-- The client's clock and its delays count milliseconds. Loops run over lists; the message loop and
-- the cleanup loop run over the events and the times that come, and the client's connection over a
-- script of what the network does, with the socket's state and the sendings that raise as functions of
-- the traffic so far. Only the polls of `ask` have fuel, one for each round: a round
-- takes at least the least delay, so the timeout divided by that delay, and two more, are enough.
--
-- The client. What carries a request to the broker is a parameter with a state of its own, and a call
-- that an agent makes may stand for all that happens until its reply is there.
--
-- Not modelled: the wiring of the web framework, SQL text, pragmas and indexes, the commands that start
-- a process, and the plugin, which is in another language.
pub mod Prelude
pub mod Json
pub mod Schema
pub mod RateLimit
pub mod Exec
pub mod Broker
pub mod Table
pub mod Presence
pub mod OfflineQueue
pub mod MessageValidation
pub mod Messages
mod Tests
pub mod Auth
pub mod Ws
pub mod Models
pub mod Rooms
pub mod Bridge
pub mod Cli
pub mod Client
pub mod Contacts
pub mod Agents
pub mod Admin
pub mod Credentials
pub mod Daemon
pub mod Database
