-- ===== src/Benchmark/Tests.antt =====
-- The theorems on the benchmark's worker, audit and supervisor at concrete engines and processes.
mod Runs
mod Working
mod Auditing
mod Supervising
