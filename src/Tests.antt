-- ===== src/Tests.antt =====
-- Runs on small inputs, and the theorems applied to them.
mod Sample
mod RateLimit
mod Broker
mod OfflineQueue
mod Messages
mod Outcome
mod Ws
mod Agents
mod Rooms
mod Contacts
mod Credentials
mod Database
mod Replies
mod Connection
mod Sdk
mod Bridge
