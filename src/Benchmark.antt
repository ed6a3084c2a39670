-- ===== src/Benchmark.antt =====
-- The benchmark of ASR models: the worker process and its supervisor, of benchmarks/asr.
pub mod Engines
pub mod Wire
pub mod Worker
pub mod Privacy
pub mod Supervisor
mod Tests
