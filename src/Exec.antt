-- ===== src/Exec.antt =====
-- Effectful code: it reads and extends the run, and gives a value or leaves early. A function that
-- returns an error is an `Exec Error`; a handler that returns early is an `Exec Response`.
mod Core
mod Kubernetes
pub mod Emits
pub mod Outcome
unfoldable pub use Core.*
unfoldable pub use Kubernetes.*
