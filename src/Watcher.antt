-- ===== src/Watcher.antt =====
-- pkg/watcher/watcher.go
pub mod Types
pub mod Build
pub mod Dispatch
pub mod Poll
pub mod Loop
pub mod Worker
pub mod System
pub mod Delivery
mod Tests
