-- ===== src/Client.antt =====
-- The Infisical API client of internal/infisicalclient.
pub mod Wire
pub mod Http
pub mod Token
pub mod Lists
pub mod Projects
pub mod Environments
pub mod Organizations
pub mod Identities
pub mod Memberships
pub mod UniversalAuth
pub mod KubernetesAuth
pub mod Validated
unfoldable pub use Http.*
unfoldable pub use Token.*
unfoldable pub use Lists.*
unfoldable pub use Projects.*
unfoldable pub use Environments.*
unfoldable pub use Organizations.*
unfoldable pub use Identities.*
unfoldable pub use Memberships.*
unfoldable pub use UniversalAuth.*
unfoldable pub use KubernetesAuth.*
