-- ===== src/Windows/Tests.antt =====
-- The theorems on the Windows adapters and the command line at concrete systems and inputs.
mod Targets
mod Typing
mod Pasting
mod Commands
