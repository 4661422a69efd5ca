-- ===== src/Storage.antt =====
-- pkg/signalmeow/storagewrite.go and chatsettings.go: the settings of chats in the storage service.
pub mod Records
pub mod Crypto
pub mod Settings
pub mod Write
mod Runs
