-- ===== src/EventBus.antt =====
-- The service of eventbus/: when its schedules fire, and its store.
pub mod Crontab
pub mod Store
pub mod Tests
