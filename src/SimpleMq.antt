-- ===== src/SimpleMq.antt =====
-- simplemq/: the SimpleMQ service, its message queues, its store and its handlers.
pub mod Queue
pub mod Store
pub mod Http
mod Tests
mod StoreTests
mod HttpTests
