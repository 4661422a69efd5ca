-- ===== src/Chats.antt =====
-- pkg/connector/chatsettings.go and pkg/signalmeow/types/chatsettings.go: the settings of chats.
pub mod Settings
mod Runs
