-- ===== src/Signalid.antt =====
-- pkg/signalid and pkg/libsignalgo/serviceid.go: the identifiers that the bridge stores, as text and
-- as bytes.
pub mod Uuid
pub mod ServiceId
pub mod Ids
pub mod Media
pub mod Runs
