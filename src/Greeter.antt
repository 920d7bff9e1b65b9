-- ===== src/Greeter.antt =====
-- dotty-behaviour/greeter: named greetings with a cooldown and a daily cap.
pub mod Slots
pub mod Wording
pub mod Handler
pub mod Caps
pub mod Pushes
pub mod Fallback
