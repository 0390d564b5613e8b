-- ===== src/Agent.antt =====
-- app/agent: the whitelisted tools, and one turn of the conversation with the language model.
pub mod Schema
pub mod Tools
pub mod Whitelist
pub mod Loop
pub mod Keeps
pub mod Isolation
pub mod Confined
