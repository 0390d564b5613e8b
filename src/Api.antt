-- ===== src/Api.antt =====
-- app/api: the endpoints that Slack and the cron job call.
pub mod Http
pub mod Events
pub mod Interactions
pub mod Commands
pub mod Internal
pub mod Google
pub mod Install
pub mod Signed
pub mod Delivery
unfoldable pub use Http.*
