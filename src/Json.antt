-- ===== src/Json.antt =====
-- JSON values as encoding/json exchanges them with the structs of internal/infisicalclient. The
-- text of a body is not modelled; numbers are whole.
mod Encode
mod Decode
mod Value
pub use Value.*
unfoldable pub use Encode.*
unfoldable pub use Decode.*
