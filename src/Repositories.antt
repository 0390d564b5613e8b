-- ===== src/Repositories.antt =====
-- app/repositories: the queries and writes of each table, as actions of the session.
pub mod Tenant
pub mod Constraints
pub mod Users
pub mod Tasks
pub mod Workspaces
pub mod Jobs
pub mod Reminders
pub mod OAuthStates
pub mod ProcessedEvents
