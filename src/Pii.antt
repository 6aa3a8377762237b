-- ===== src/Pii.antt =====
-- internal/pii: the shared types (types.go, detector.go, policy.go), the errors (errors.go) and
-- Go's contexts and error results.
pub mod Errors
pub mod Types
pub use Errors.*
pub use Types.*
