-- ===== src/Handlers.antt =====
-- pkg/handlers: the event handlers of the contracts.
pub mod Hex
pub mod Sha256
pub mod Htlc
pub mod Orderbook
pub mod Atomic
mod Tests
