-- ===== src/Tokenizer.antt =====
-- internal/tokenizer: spans, the token allocator, replacement plans, their application and their
-- merging, and the detokenizer. The definitions stand in these children; proofs stand below them
-- and in RoundTrip.
pub mod Span
pub mod Allocator
pub mod Apply
pub mod Detokenizer
pub mod Plan
pub mod Priority
pub mod Merge
pub mod RoundTrip
