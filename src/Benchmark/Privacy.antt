-- ===== src/Benchmark/Privacy.antt =====
-- The privacy audit: benchmarks/asr/privacy_audit.py.
pub mod Audit
pub mod Auditing
