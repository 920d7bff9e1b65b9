-- ===== src/Consumers.antt =====
-- dotty-behaviour/consumers: what listens on the event bus and moves the robot.
pub mod Commands
pub mod Turners
pub mod Purr
pub mod FaceGreeter
pub mod Aborter
pub mod System
pub mod Pace
pub mod Aborts
pub mod Security
pub mod Dreams
pub mod Watch
