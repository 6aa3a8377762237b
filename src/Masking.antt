-- ===== src/Masking.antt =====
-- internal/masking: the maskers, which join the detectors and the tokenizer.
pub mod Kinds
pub mod Cascade
pub mod Rule
pub mod RoundTrip
pub mod Whole
