-- ===== src/Groups.antt =====
-- pkg/signalmeow/groups.go and groupcache.go: the groups that the client keeps, and their changes.
pub mod Data
pub mod Change
pub mod Cache
pub mod Conflict
mod Runs
