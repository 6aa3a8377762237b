-- ===== src/Ml.antt =====
-- internal/ml: what goes to the model server and comes back.
pub mod Batch
pub mod Chunker
pub mod Types
pub mod Extractor
pub mod Queue
pub mod Collector
pub mod Batcher
pub mod Client
