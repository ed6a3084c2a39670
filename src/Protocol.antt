-- ===== src/Protocol.antt =====
-- The worker protocol: benchmarks/asr/worker_protocol.py.
pub mod Python
pub mod Messages
pub mod Encode
pub mod Decode
pub mod Sorting
pub mod RoundTrip
pub mod Sound
pub mod Requests
pub mod RequestTrip
pub mod Version1
pub mod Versions
mod Tests
