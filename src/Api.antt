-- ===== src/Api.antt =====
-- The custom resources of api/infisical/v1alpha1.
mod Meta
mod Resources
mod Identities
mod UniversalAuth
mod KubernetesAuth
unfoldable pub use Meta.*
unfoldable pub use Resources.*
unfoldable pub use Identities.*
unfoldable pub use UniversalAuth.*
unfoldable pub use KubernetesAuth.*
