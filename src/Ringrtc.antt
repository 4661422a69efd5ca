-- ===== src/Ringrtc.antt =====
-- pkg/signalmeow/ringrtc: the payloads of the one-to-one call signalling.
pub mod Protowire
pub mod Wire
pub mod Signaling
pub mod Accepted
pub mod CallMessage
mod Runs
