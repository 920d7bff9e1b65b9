-- ===== src/Consumers/Pace.antt =====
-- How often, and how soon after a purr, the head turns to a sound.
pub mod Basics
pub mod Turns
pub mod Greets
use dotty_stackchan.Prelude.{
  true, false, ◌∷◌, is_blank, Bool, ◌||◌, ltb, not, [], ℕ, ◌+◌, ◌≤◌, String, ◌≡◌, refl, ap, ◌∙◌,
  inl, inr, true, Option, none, some, List, arith, ◌==◌, eq_iff, if◌then◌else◌, Bool-cases,
}
use mathlib.Core.Path.{subst}
use dotty_stackchan.Dict.{insert, lookup, get_or-insert}
use dotty_stackchan.Perception.Types.{Data, Event, Device, no_device, or_zero, State, Limits}
use dotty_stackchan.Perception.Update.{
  stripped_text, update_device, device, set_device, update_state,
}
use dotty_stackchan.Perception.Bus.{is_anonymous, perception_event}
use dotty_stackchan.Perception.Update.{
  Kind, kind_of, apply_event, update_device, state_changed, face_recognized,
}
use dotty_stackchan.Perception.History.{device_step, devices-broadcast}
use dotty_stackchan.Consumers.Commands.{Command}
use dotty_stackchan.Consumers.Purr.{on_head_pet, event_time}
use dotty_stackchan.Consumers.FaceGreeter.{
  Household, on_face, handle_face_recognized, FaceGreeter, handle_face_detected, greet_by_name,
}
use dotty_stackchan.Consumers.Turners.{
  is_face_present, turn_to_speaker, on_sound, on_wake_word, left, right, centre, direction_of,
  SoundTurner, may_turn, turn_to_sound, head_turn, Direction,
}
use dotty_stackchan.Consumers.System.{
  or_crash, faced, perceived, marks, with_mark, act, summoned, petted, System, Action, heard, Mark,
  sound_turn, wake_turn, chat_until, mark,
}
use dotty_stackchan.Consumers.Pace.Basics.{
  pace, advance, Allowed, Step, pace-perception_event, device-set_device, pace-turned, may_turn-far,
  pace-touch,
}
use dotty_stackchan.Consumers.Pace.Turns.{on_sound-Step, on_wake_word-Step, on_head_pet-Step}
use dotty_stackchan.Consumers.Pace.Greets.{Leaves, on_face-Leaves}

act-Step : (y : System) (id : String) (a : Action) (s : State) → Step y id a s (act y a s)
unfolding act
act-Step y id (perceived e) s = (pace-perception_event y.limits e s id, tt)
act-Step y id (heard e) s = on_sound-Step y id e s
act-Step y id (summoned e) s = on_wake_word-Step y id e s
act-Step y id (petted clock e) s = on_head_pet-Step y id clock e s
act-Step y id (faced hour e) s = crash (on_face y.face hour e s) (on_face-Leaves y.face hour e s id)
  where
    crash :
        (o : Option (State × List Command))
        → Leaves id s o
        → Step y id (faced hour e) s (or_crash s o)
    crash none h = (refl, tt)
    crash (some (t, cs)) h = (h, tt)

-- The marks of a device keep the pace of the sound turner, from the last turn and the last chat.
abbrev pub Paced : SoundTurner → ℕ × ℕ → List Mark → Type 0
Paced c p [] = Unit
Paced c (turn, chat) (sound_turn t ∷ ms) =
    (turn + c.cooldown_sec ≤ t) × (chat + c.quiet_after_chat_sec ≤ t) × Paced c (t, chat) ms
Paced c (turn, chat) (wake_turn t ∷ ms) = Paced c (t, chat) ms
Paced c (turn, chat) (chat_until t ∷ ms) = Paced c (turn, t) ms

Paced-with_mark :
    (c : SoundTurner) (p : ℕ × ℕ) (o : Option Mark) (ms : List Mark)
    → Allowed c p o
    → Paced c (advance p o) ms
    → Paced c p (with_mark o ms)
Paced-with_mark c p none ms h rest = rest
Paced-with_mark c p (some (sound_turn t)) ms h rest = (h.0, h.1, rest)
Paced-with_mark c p (some (wake_turn t)) ms h rest = rest
Paced-with_mark c p (some (chat_until t)) ms h rest = rest

-- However the perception route, the turners, the purr player and the face greeter take turns, and
-- whatever events they are handed, the head turns to a sound only when the cooldown has passed since
-- the device's last turn, to a sound or to a wake word, and the quiet time since the end of its last
-- purr or chat.
pub marks-Paced :
    (y : System) (id : String) (actions : List Action) (s : State)
    → Paced y.sound (pace (device id s)) (marks y id actions s)
unfolding marks
marks-Paced y id [] s = tt
marks-Paced y id (a ∷ actions) s =
    let (moved, allowed) = act-Step y id a s in
    Paced-with_mark y.sound (pace (device id s)) (mark y id a (act y a s).1)
      (marks y id actions (act y a s).0) allowed
      (subst (λ p. Paced y.sound p (marks y id actions (act y a s).0)) moved
        (marks-Paced y id actions (act y a s).0))
