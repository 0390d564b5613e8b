-- ===== src/Ui.antt =====
-- app/ui: what Slack shows.
pub mod Blocks
