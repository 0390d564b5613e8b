-- ===== src/Services.antt =====
-- app/services: the operations on tasks and on meetings.
pub mod SlackOauth
pub mod Keeps
pub mod Tasks
pub mod Meetings
pub mod Analytics
pub mod Parsers
