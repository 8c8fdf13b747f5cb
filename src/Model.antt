-- ===== src/Model.antt =====
-- pkg/model/model.go
pub mod Rows
pub mod BigInt
mod Tests
