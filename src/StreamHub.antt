-- ===== src/StreamHub.antt =====
-- The WebSocket hub, cpp-backend/src/streaming/camera_stream_manager.cpp: the slots of the connections,
-- the one-time tickets, the messages of the clients and who gets an event. A socket is a number; what
-- a message says once it is parsed, the clock and the cameras of a user are arguments.
pub mod Slots
pub mod Counts
pub mod Tickets
pub mod Queue
pub mod Replays
pub mod State
pub mod Hub
pub mod Events
pub mod Places
pub mod Entry
pub mod Rights
mod Tests
