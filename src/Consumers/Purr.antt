-- ===== src/Consumers/Purr.antt =====
-- One event of dotty-behaviour/consumers/purr_player.py.
use dotty_stackchan.Prelude.{
  ℕ, ◌+◌, String, not, ◌||◌, some, List, [], ◌∷◌, ◌==◌, ltb, nat_eq, if◌then◌else◌,
}
use dotty_stackchan.Perception.Types.{Event, or_zero, State}
use dotty_stackchan.Perception.Update.{device, set_device}
use dotty_stackchan.Perception.Bus.{is_anonymous}
use dotty_stackchan.Consumers.Commands.{Command, play_asset}

pub record PurrPlayer : Type 0 where
  pub asset_path : String
  pub cooldown_sec : ℕ
  pub duration_sec : ℕ

-- `float(event.ts or time.time())`
abbrev pub event_time : ℕ → ℕ → ℕ
event_time ts clock = if nat_eq ts 0 then clock else ts

unfoldable pub on_head_pet : PurrPlayer → ℕ → Event → State → State × List Command
on_head_pet c clock e s =
    let d = device e.device_id s in
    let now = event_time e.ts clock in
    if not (e.name == "head_pet_started") || is_anonymous e.device_id
    then (s, [])
    else if ltb now (or_zero d.last_purr_t + c.cooldown_sec)
    then (set_device e.device_id d s, [])
    else (
      set_device e.device_id
          (record d { last_purr_t = some now; last_chat_t = some (now + c.duration_sec) }) s,
      play_asset e.device_id c.asset_path ∷ [],
    )
