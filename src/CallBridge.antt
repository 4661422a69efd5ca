-- ===== src/CallBridge.antt =====
-- pkg/connector/callbridging.go: calls that are bridged between Signal and Matrix.
pub mod Session
pub mod Goroutines
pub mod Bridge
pub mod Handlers
pub mod Steps
pub mod Invariant
pub mod Properties
pub mod Ending
pub mod Free
pub mod Foreign
mod Runs
