-- ===== src/Consumers/Commands.antt =====
-- What the consumers of the event bus ask of the robot (dotty-behaviour/dispatch/xiaozhi.py), and
-- the settings that they read from dotty-behaviour/config.py.
use dotty_stackchan.Prelude.{ℕ, String, ℤ}

pub data Command : Type 0 where
  set_head_angles : String → ℤ → ℤ → ℕ → Command
  inject_text : String → String → Command
  say : String → String → Command
  set_face_identified : String → Command
  play_asset : String → String → Command
  abort : String → Command
