-- ===== src/Consumers/Pace/Basics.antt =====
-- The pace of a device: its last turn and the end of its last chat, and what each event makes of it.
use dotty_stackchan.Prelude.{
  true, ℕ, ◌+◌, ◌≤◌, String, ◌≡◌, refl, ◌∙◌, true, Option, none, some, List, arith, ◌==◌, eq_iff,
  if◌then◌else◌,
}
use dotty_stackchan.Dict.{get_or-insert}
use dotty_stackchan.Perception.Types.{Data, Event, Device, no_device, or_zero, State, Limits}
use dotty_stackchan.Perception.Update.{update_device, device, set_device, update_state}
use dotty_stackchan.Perception.Bus.{perception_event}
use dotty_stackchan.Perception.Update.{
  Kind, kind_of, apply_event, update_device, state_changed, face_recognized,
}
use dotty_stackchan.Perception.History.{device_step, devices-broadcast}
use dotty_stackchan.Consumers.Commands.{Command}
use dotty_stackchan.Consumers.Turners.{SoundTurner, may_turn, head_turn}
use dotty_stackchan.Consumers.System.{System, Action, Mark, sound_turn, wake_turn, chat_until, mark}

-- The last turn of a device and the end of its last chat or purr.
abbrev pub pace : Device → ℕ × ℕ
pace d = (or_zero d.last_sound_turn_t, or_zero d.last_chat_t)

abbrev pub advance : ℕ × ℕ → Option Mark → ℕ × ℕ
advance (turn, chat) none = (turn, chat)
advance (turn, chat) (some (sound_turn t)) = (t, chat)
advance (turn, chat) (some (wake_turn t)) = (t, chat)
advance (turn, chat) (some (chat_until t)) = (turn, t)

-- A turn to a sound keeps its distance from the last turn and from the last chat or purr.
abbrev pub Allowed : SoundTurner → ℕ × ℕ → Option Mark → Type 0
Allowed c (turn, chat) (some (sound_turn t)) =
    (turn + c.cooldown_sec ≤ t) × (chat + c.quiet_after_chat_sec ≤ t)
Allowed c p _ = Unit

pace-apply_event :
    (k : Kind) (payload : Data) (ts : ℕ) (d : Device) → pace (apply_event k payload ts d).0 ≡ pace d
unfolding apply_event
pace-apply_event state_changed payload ts d = ground arith
pace-apply_event face_recognized payload ts d = ground arith
pace-apply_event _ payload ts d = refl

pace-update_device :
    (name : String) (payload : Data) (ts : ℕ) (d : Device)
    → pace (update_device name payload ts d).0 ≡ pace d
unfolding update_device
pace-update_device name payload ts d = pace-apply_event (kind_of name) payload ts _

pub device-set_device :
    (id j : String) (d : Device) (s : State)
    → device j (set_device id d s) ≡ (if id == j then d else device j s)
device-set_device id j d s = get_or-insert id j d no_device s.devices

pub pace-perception_event :
    (l : Limits) (e : Event) (s : State) (id : String)
    → pace (device id (perception_event l e s).0) ≡ pace (device id s)
pace-perception_event l e s id =
    ground (arith, device_step l e s id, pace-update_device e.name e.payload e.ts (device id s))

pace-head_turn :
    (l : Limits) (id j : String) (payload : Data) (ts : ℕ) (s : State)
    → pace (device j (head_turn l id payload ts s)) ≡ pace (device j s)
unfolding head_turn update_state
pace-head_turn l id j payload ts s = ground (
  arith,
  devices-broadcast l (record { device_id = id; name = "head_turn"; payload = payload; ts = ts })
      (set_device id (update_device "head_turn" payload ts (device id s)).0 s),
  device-set_device id j (update_device "head_turn" payload ts (device id s)).0 s,
  pace-update_device "head_turn" payload ts (device id s),
  eq_iff id j,
)

pub pace-turned :
    (l : Limits) (id j : String) (payload : Data) (ts : ℕ) (d : Device) (s : State)
    → pace (device j (head_turn l id payload ts (set_device id d s)))
      ≡ (if id == j then pace d else pace (device j s))
pace-turned l id j payload ts d s =
    pace-head_turn l id j payload ts (set_device id d s)
    ∙ ground (arith, device-set_device id j d s)

pub may_turn-far :
    (c : SoundTurner) (d : Device) (now : ℕ)
    → may_turn c d now ≡ true
    → Allowed c (pace d) (some (sound_turn now))
unfolding may_turn
may_turn-far c d now h = ground arith

-- A step of one consumer, seen by the device `id`.
abbrev pub Step : System → String → Action → State → State × List Command → Type 0
Step y id a s (s', cs) =
    (pace (device id s') ≡ advance (pace (device id s)) (mark y id a cs))
    × Allowed y.sound (pace (device id s)) (mark y id a cs)

pub pace-touch :
    (id j : String) (s : State)
    → pace (device j (set_device id (device id s) s)) ≡ pace (device j s)
pace-touch id j s = ground (arith, device-set_device id j (device id s) s, eq_iff id j)
