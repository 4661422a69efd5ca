-- ===== src/Signalfmt.antt =====
-- pkg/msgconv/signalfmt: Signal body ranges to formatted text.
pub mod Tree
pub mod Utf16
pub mod Format
pub mod Convert
mod Runs
