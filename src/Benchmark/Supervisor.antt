-- ===== src/Benchmark/Supervisor.antt =====
-- The supervisor of a worker process: benchmarks/asr/worker_supervisor.py.
pub mod Process
pub mod Communicating
pub mod Running
pub mod Life
pub mod Steps
pub mod Calls
pub mod Accepting
pub mod Trusting
pub mod Finishing
pub mod Handing
pub mod Unsent
