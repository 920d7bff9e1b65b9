-- ===== src/Activity.antt =====
-- bridge/activity.py, the activity timeline of the dashboard.
pub mod Envelope
pub mod Payload
pub mod Turns
pub mod Store
pub mod Seen
pub mod Duplicates
pub mod Stored
pub mod Outcome
pub mod Persisted
pub mod Limits
pub mod Failures
pub mod Bounds
