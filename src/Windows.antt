-- ===== src/Windows.antt =====
-- The Windows adapters of experiments/windows_insertion/insertion_spike and what they ask of the
-- system.
pub mod Target
pub mod Utf16
pub mod Injector
pub mod Clipboard
pub mod Cli
mod Tests
