-- ===== src/Chat.antt =====
-- backend/src/p9/services/chat.service.ts: sessions, messages and their answers by workers. Lease has
-- the work on an operation, Sessions the requests of a user, Calls both in any order; Queue and
-- Title are the job queue of the process and the first title of a session.
pub mod Queue
pub mod Rows
pub mod Title
pub mod Lease
pub mod Sessions
pub mod Calls
pub mod Cases
pub mod Reply
pub mod Fence
pub mod Deleted
pub mod Kept
pub mod Again
mod Tests
