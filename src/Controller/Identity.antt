-- ===== src/Controller/Identity.antt =====
-- internal/controller/infisical/infisicalidentity_controller.go
pub mod Safety
pub mod Drift
pub mod Valid
pub mod Acquire
mod Tests
pub mod Spec
pub mod State
pub mod Membership
pub mod Steps
pub mod Reconcile
unfoldable pub use Spec.*
unfoldable pub use State.*
unfoldable pub use Membership.*
unfoldable pub use Steps.*
unfoldable pub use Reconcile.*
