-- ===== src/Voice.antt =====
-- The voice path: custom-providers/textUtils.py, custom-providers/pi_voice and bridge/text.py.
pub mod Faces
pub mod Filter
pub mod Spoken
pub mod Blocked
pub mod Session
pub mod Isolation
pub mod Frames
pub mod Reply
pub mod Turns
