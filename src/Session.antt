-- ===== src/Session.antt =====
-- The resident session of pkg/aiiosdk/session.go: the lane on which replies, events and host calls
-- are sent, and the table of host calls that wait for a reply.
pub mod Lane
pub mod Pending
pub mod Frames
mod Tests
