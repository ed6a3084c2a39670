-- ===== src/Evidence.antt =====
-- Offline evidence: benchmarks/asr/offline_evidence.py.
pub mod Records
pub mod Verdict
mod Tests
