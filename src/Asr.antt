-- ===== src/Asr.antt =====
-- The ASR port and its two engines: src/nadikt/domain/ports/asr.py, src/nadikt/infrastructure/asr.
pub mod Ports
pub mod Engine
pub mod Gigaam
pub mod Whisper
pub mod Closing
pub mod Loading
pub mod Raising
mod Tests
