-- ===== src/Core.antt =====
-- app/core: the primitives that the routes and the worker trust.
pub mod Security
