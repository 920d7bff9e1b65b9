-- ===== src/Calendar.antt =====
-- dotty-behaviour/calendar_, the cache of the calendar and the weather and its poll loop.
pub mod Cache
pub mod Poll
pub mod Buckets
pub mod Days
pub mod Backoff
