-- ===== src/Insertion.antt =====
-- The insertion spike: experiments/windows_insertion/insertion_spike.
pub mod Contracts
pub mod Boundary
pub mod Service
pub mod Flow
pub mod Frame
pub mod Run
pub mod Safety
pub mod Once
pub mod Retention
pub mod Custody
pub mod Clipboard
mod Tests
