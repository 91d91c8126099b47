-- ===== src/Ws.antt =====
-- src/claw_msg/server/routes_ws.py: the WebSocket endpoint. What the code takes from json, pydantic
-- and str() is a parameter. Each event comes with its own clocks, id and state of the sockets; in
-- between events no other task acts.
pub mod Frames
pub mod Session
pub mod Agreement
pub mod Entry
pub mod Backlog
pub mod Closing
