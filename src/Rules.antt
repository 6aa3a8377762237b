-- ===== src/Rules.antt =====
-- The rule engine: internal/entity, internal/resolver and the checksums of internal/recognizer.
pub mod Types
pub mod Spans
pub mod Resolver
pub mod Checksum
pub mod Residual
pub mod Engine
pub mod Normalize
