-- ===== src/Tests.antt =====
-- Runs of the program at a small concrete world, and each theorem applied there.
mod Setting
mod Queue
mod Tasks
mod Meetings
mod Access
mod Endpoints
mod Oauth
mod Agent
