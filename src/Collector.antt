-- ===== src/Collector.antt =====
-- collector/db.py: the evidence store and the notification outbox of the collector.
pub mod Chunks
pub mod Rows
pub mod Names
pub mod History
pub mod Queue
pub mod Reports
pub mod Registry
pub mod Offline
pub mod Run
pub mod Dispatch
pub mod Telegram
pub mod Outbox
pub mod DeadLetters
pub mod Reading
