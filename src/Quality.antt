-- ===== src/Quality.antt =====
-- The quality metrics: benchmarks/asr/quality_metrics.py.
pub mod Levenshtein
pub mod Edits
pub mod Distance
pub mod Tokens
pub mod Equality
pub mod Spans
pub mod Metrics
pub mod Reports
pub mod Normalization
pub mod Selection
pub mod Occurrences
pub mod Rates
mod Tests
