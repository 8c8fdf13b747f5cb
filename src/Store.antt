-- ===== src/Store.antt =====
-- pkg/store/store.go
pub mod Gorm
pub mod Methods
pub mod Update
pub mod Orders
pub mod Memory
mod Tests
pub mod Atomic
