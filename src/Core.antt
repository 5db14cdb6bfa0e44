-- ===== src/Core.antt =====
-- core/: the building blocks that the service modules share.
pub mod Decimal
pub mod Fault
pub mod IdGenerator
pub mod Paging
mod Tests
