-- ===== src/Hearing.antt =====
-- The voice turns of the server: receiveAudioHandle.py, from a recognised text to what is done.
pub mod Phrases
pub mod Corrections
pub mod Connection
pub mod Replies
pub mod Turn
pub mod Audio
pub mod Tally
pub mod Settled
