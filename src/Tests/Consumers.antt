-- ===== src/Tests/Consumers.antt =====
-- Runs of the consumers' models, and their theorems at concrete inputs.
use dotty_stackchan.Prelude.{
  ℕ, ◌≤◌, String, ◌≡◌, refl, none, List, [], ◌∷◌, length, last_n, deque_append, pos, negate,
}
use dotty_stackchan.Dict.{lookup, get_or, insert, remove}
use dotty_stackchan.Dict.{lookup, get_or, insert, remove}
use dotty_stackchan.Perception.Types.{Value, Data, Event, init}
use dotty_stackchan.Perception.Update.{update_device, update_state, kind_of, apply_event}
use dotty_stackchan.Perception.Bus.{broadcast, recent_append}
use dotty_stackchan.Consumers.Commands.{abort}
use dotty_stackchan.Consumers.Turners.{
  on_sound, turn_to_sound, head_turn, may_turn, direction_of, yaw_of,
}
use dotty_stackchan.Consumers.Purr.{on_head_pet}
use dotty_stackchan.Consumers.FaceGreeter.{handle_face_detected, on_face}
use dotty_stackchan.Consumers.System.{
  System, Action, heard, petted, faced, sound_turn, chat_until, act, marks,
}
use dotty_stackchan.Consumers.Pace.{Paced, marks-Paced}
use dotty_stackchan.Consumers.Aborter.{
  FaceLostAborter, Tick, arrives, wakes, aborts, on_face_change, wake_task,
}
use dotty_stackchan.Consumers.Aborts.{losses, aborts-face_detected}

abbrev system : System
system = record {
  limits = record { queue_max = 4; recent_max = 4 };
  sound = record { cooldown_sec = 5; yaw_deg = pos 30; speed = 200; quiet_after_chat_sec = 8 };
  wake = record { yaw_deg = pos 30; speed = 200 };
  purr = record { asset_path = "purr.wav"; cooldown_sec = 6; duration_sec = 3 };
  face = record {
    bare_greet_text = "hello";
    bare_min_interval_sec = 60;
    bare_hour_start = 7;
    bare_hour_end = 20;
    name_template = λ name. name;
    name_min_interval_sec = 60;
    name_quiet_after_chat_sec = 10;
    household = none;
  };
}

abbrev event : String → Data → ℕ → Event
event name payload ts = record { device_id = "kitchen"; name = name; payload = payload; ts = ts }

abbrev sound : ℕ → Action
sound ts = heard (event "sound_event" (("direction", Value.text "left") ∷ []) ts)

-- The sound at 22 comes within the cooldown, the one at 33 in the quiet time of the purr.
abbrev evening : List Action
evening =
    sound 20
    ∷ sound 22
    ∷ petted 0 (event "head_pet_started" [] 24)
    ∷ sound 33
    ∷ faced 8 (event "face_detected" [] 34)
    ∷ sound 35
    ∷ []

evening_pace :
    marks system "kitchen" evening init ≡ sound_turn 20 ∷ chat_until 27 ∷ sound_turn 35 ∷ []
unfolding marks act on_sound on_head_pet on_face turn_to_sound may_turn direction_of yaw_of
    head_turn broadcast recent_append deque_append last_n update_state update_device kind_of
    apply_event get_or insert lookup negate handle_face_detected
evening_pace = refl

marks-Paced_example : Paced system.sound (0, 0) (marks system "kitchen" evening init)
unfolding get_or
marks-Paced_example = marks-Paced system "kitchen" evening init

abbrev aborter : FaceLostAborter
aborter = record { window_sec = 30; grace_sec = 4 }

-- A loss whose abort the next face takes back, then a loss for good.
abbrev ticks : List Tick
ticks =
    arrives 11 (event "face_lost" [] 11)
    ∷ wakes "kitchen" 13
    ∷ arrives 14 (event "face_detected" [] 14)
    ∷ wakes "kitchen" 15
    ∷ arrives 16 (event "face_lost" [] 16)
    ∷ wakes "kitchen" 20
    ∷ wakes "kitchen" 21
    ∷ []

one_abort : aborts aborter "kitchen" ticks (init, []) ≡ abort "kitchen" ∷ []
unfolding aborts on_face_change wake_task get_or insert lookup remove
one_abort = refl

aborts-face_detected_example :
    length (aborts aborter "kitchen" (arrives 10 (event "face_detected" [] 10) ∷ ticks) (init, []))
    ≤ losses "kitchen" ticks
aborts-face_detected_example =
    aborts-face_detected aborter 10 (event "face_detected" [] 10) ticks init [] refl refl
