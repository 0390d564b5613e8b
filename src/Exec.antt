-- ===== src/Exec.antt =====
-- What a request or a job runs in: one database session, the outside world, exceptions.
-- An action returns the world after a raise too, since what was written stays written until the
-- session is closed. `db` is what the session sees; `saved` is what it has committed.
mod Monad
pub mod Laws
pub mod Responses
pub mod Requests
pub mod Agrees
unfoldable pub use Monad.*
