-- ===== src/Tests/Security.antt =====
-- A run of the security consumer, and its theorem at concrete inputs.
use dotty_stackchan.Prelude.{
  String, ◌≡◌, refl, true, false, none, some, List, [], ◌∷◌, ◌++◌, if◌then◌else◌, any, strip,
  to_lower, pos,
}
use dotty_stackchan.Dict.{lookup, insert, remove}
use dotty_stackchan.Perception.Types.{Event, text, num}
use dotty_stackchan.Perception.Update.{stripped_text}
use dotty_stackchan.Consumers.Security.{
  new_security_cycle, watch, on_state_changed, change_watch, start_device_timer, stop_device_timer,
  stop_all_timers, is_running, run_one_cycle, take_leg, wait_for_fresh, described,
}
use dotty_stackchan.Consumers.Watch.{is_malformed, says_watch, is_running-watch}
use dotty_stackchan.Perception.History.{latest}

abbrev turns_to : String → String → Event
turns_to id state = record {
  device_id = id;
  name = "state_changed";
  payload = ("state", text state) ∷ [];
  ts = 3;
}

abbrev night : List Event
night = turns_to "hall" "Security" ∷ turns_to "kitchen" "idle" ∷ turns_to "hall" "security " ∷ []

abbrev broken : Event
broken = record (turns_to "kitchen" "idle") { payload = ("state", num (pos 3)) ∷ [] }

hall_watched : (watch night new_security_cycle).device_timers ≡ ("hall", false) ∷ []
unfolding watch on_state_changed change_watch start_device_timer stop_device_timer stripped_text
    lookup insert remove strip to_lower
hall_watched = refl

nobody_watched : (watch (night ++ broken ∷ []) new_security_cycle).device_timers ≡ []
unfolding watch on_state_changed change_watch start_device_timer stop_device_timer stop_all_timers
    stripped_text lookup insert remove strip to_lower
nobody_watched = refl

is_running-watch_example :
    is_running "hall" (watch night new_security_cycle).device_timers
    ≡ (if any is_malformed night then false else latest says_watch "hall" night false)
is_running-watch_example = is_running-watch night "hall"

-- The picture of the cycle is there at the second look, and the sound is never taken.
half_cycle :
    (run_one_cycle "t0" "hall"
      (record {
        before = none;
        dispatched = true;
        looks = none ∷ some (record { wall_ts = some 9; description = some " a cat " }) ∷ [];
      })
      (record { before = none; dispatched = false; looks = [] })).errors
    ≡ "audio_capture_pending" ∷ []
unfolding run_one_cycle take_leg wait_for_fresh described strip
half_cycle = refl
