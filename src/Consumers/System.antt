-- ===== src/Consumers/System.antt =====
-- The consumers and the perception route at work on one state. Each step runs to its end before
-- another task of the event loop does, and the steps come in any order, with any events: a queue
-- hands over what it holds when its consumer is scheduled.
use dotty_stackchan.Prelude.{
  ℕ, ◌+◌, String, Bool, Option, none, some, List, [], ◌∷◌, ◌==◌, if◌then◌else◌,
}
use dotty_stackchan.Perception.Types.{Event, State, Limits}
use dotty_stackchan.Perception.Bus.{perception_event}
use dotty_stackchan.Consumers.Commands.{Command}
use dotty_stackchan.Consumers.Turners.{SoundTurner, WakeWordTurner, on_sound, on_wake_word}
use dotty_stackchan.Consumers.Purr.{PurrPlayer, on_head_pet, event_time}
use dotty_stackchan.Consumers.FaceGreeter.{FaceGreeter, on_face}

pub record System : Type 0 where
  pub limits : Limits
  pub sound : SoundTurner
  pub wake : WakeWordTurner
  pub purr : PurrPlayer
  pub face : FaceGreeter

pub data Action : Type 0 where
  perceived : Event → Action
  heard : Event → Action
  summoned : Event → Action
  petted : ℕ → Event → Action
  faced : ℕ → Event → Action

abbrev pub or_crash : State → Option (State × List Command) → State × List Command
or_crash s none = (s, [])
or_crash s (some r) = r

unfoldable pub act : System → Action → State → State × List Command
act y (perceived e) s = ((perception_event y.limits e s).0, [])
act y (heard e) s = on_sound y.limits y.sound e s
act y (summoned e) s = on_wake_word y.limits y.wake e s
act y (petted clock e) s = on_head_pet y.purr clock e s
act y (faced hour e) s = or_crash s (on_face y.face hour e s)

-- What a step that gave commands means for the pace of a device.
pub data Mark : Type 0 where
  sound_turn wake_turn chat_until : ℕ → Mark

abbrev pub mark_if : Bool → Mark → List Command → Option Mark
mark_if mine m [] = none
mark_if mine m (c ∷ cs) = if mine then some m else none

abbrev pub mark : System → String → Action → List Command → Option Mark
mark y id (heard e) cs = mark_if (e.device_id == id) (sound_turn e.ts) cs
mark y id (summoned e) cs = mark_if (e.device_id == id) (wake_turn e.ts) cs
mark y id (petted clock e) cs =
    mark_if (e.device_id == id) (chat_until (event_time e.ts clock + y.purr.duration_sec)) cs
mark y id _ cs = none

abbrev pub with_mark : Option Mark → List Mark → List Mark
with_mark none ms = ms
with_mark (some m) ms = m ∷ ms

-- The turns and purrs of one device over a run.
unfoldable pub marks : System → String → List Action → State → List Mark
marks y id [] s = []
marks y id (a ∷ actions) s =
    with_mark (mark y id a (act y a s).1) (marks y id actions (act y a s).0)
