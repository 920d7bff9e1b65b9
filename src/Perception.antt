-- ===== src/Perception.antt =====
-- dotty-behaviour/perception: the central perception state.
pub mod Types
pub mod Update
pub mod Bus
pub mod Waiters
pub mod Snapshot
pub mod Ring
pub mod Delivery
pub mod Dance
pub mod History
pub mod Faces
pub mod Views
pub mod Waiting
