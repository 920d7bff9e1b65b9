-- ===== src/Realtime.antt =====
-- custom-providers/openai_realtime/bridge.py, the speech-to-speech session of one device.
pub mod State
pub mod Device
pub mod Input
pub mod Tools
pub mod Events
pub mod Player
pub mod System
pub mod KidMode
pub mod Shut
pub mod Barge
pub mod Coherence
pub mod Interruption
pub mod Drain
