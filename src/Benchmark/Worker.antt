-- ===== src/Benchmark/Worker.antt =====
-- The worker process: benchmarks/asr/benchmark_worker.py.
pub mod Measures
pub mod Sampling
pub mod Repeat
pub mod Probing
pub mod Main
pub mod Phases
pub mod Telling
pub mod Answering
pub mod Ending
pub mod Running
pub mod Replying
pub mod Escaping
