-- ===== src/Consumers/Turners.antt =====
-- One event of dotty-behaviour/consumers/sound_turner.py and wake_word_turner.py.
use dotty_stackchan.Prelude.{
  ℕ, ◌+◌, String, Bool, not, ◌&&◌, ◌||◌, Option, none, some, List, [], ◌∷◌, ◌==◌, ltb,
  if◌then◌else◌, ℤ, pos, negate,
}
use dotty_stackchan.Dict.{lookup}
use dotty_stackchan.Perception.Types.{Value, Data, Event, Device, or_zero, is_set, State, Limits}
use dotty_stackchan.Perception.Update.{device, set_device, update_state}
use dotty_stackchan.Perception.Bus.{is_anonymous, broadcast}
use dotty_stackchan.Consumers.Commands.{Command, set_head_angles}

pub record SoundTurner : Type 0 where
  pub cooldown_sec : ℕ
  pub yaw_deg : ℤ
  pub speed : ℕ
  pub quiet_after_chat_sec : ℕ

pub record WakeWordTurner : Type 0 where
  pub yaw_deg : ℤ
  pub speed : ℕ

pub data Direction : Type 0 where
  left centre right : Direction

-- The directions that the sound turner knows: `left`, `centre`, `center` and `right`.
unfoldable pub direction_of : Option Value → Option Direction
direction_of (some (Value.text s)) =
    if s == "left"
    then some left
    else if s == "right"
    then some right
    else if s == "centre" || s == "center"
    then some centre
    else none
direction_of _ = none

unfoldable pub yaw_of : ℤ → Direction → ℤ
yaw_of yaw left = negate yaw
yaw_of yaw right = yaw
yaw_of yaw centre = pos 0

-- `data.get(key)` where the value goes into another payload.
abbrev or_null : Option Value → Value
or_null none = Value.null
or_null (some v) = v

-- `data.get("phrase", "")`
abbrev phrase_of : Option Value → Value
phrase_of none = Value.text ""
phrase_of (some v) = v

-- The synthetic `head_turn` event, applied to the state and broadcast.
unfoldable pub head_turn : Limits → String → Data → ℕ → State → State
head_turn l device_id payload ts s =
    broadcast l (record { device_id = device_id; name = "head_turn"; payload = payload; ts = ts })
      (update_state device_id "head_turn" payload ts s).0

abbrev pub is_face_present : Device → Bool
is_face_present d = is_set d.face_present

-- The guards of the sound turner on the state of the device: the face tracker owns the gaze, the
-- user may go on speaking, and the last turn is too recent.
unfoldable pub may_turn : SoundTurner → Device → ℕ → Bool
may_turn c d now =
    not (is_face_present d)
    && not (ltb now (or_zero d.last_chat_t + c.quiet_after_chat_sec))
    && not (ltb now (or_zero d.last_sound_turn_t + c.cooldown_sec))

-- The turn itself, for a known direction.
unfoldable pub turn_to_sound :
    Limits → SoundTurner → Direction → Event → State → State × List Command
turn_to_sound l c direction e s =
    let d = device e.device_id s in
    let yaw = yaw_of c.yaw_deg direction in
    if may_turn c d e.ts
    then (
      head_turn l e.device_id
          (("yaw", Value.num yaw)
            ∷ ("pitch", Value.num (pos 0))
            ∷ ("speed", Value.num (pos c.speed))
            ∷ ("reason", Value.text "sound_localizer")
            ∷ ("direction", or_null (lookup "direction" e.payload))
            ∷ ("energy", or_null (lookup "energy" e.payload))
            ∷ [])
          e.ts (set_device e.device_id (record d { last_sound_turn_t = some e.ts }) s),
      set_head_angles e.device_id yaw (pos 0) c.speed ∷ [],
    )
    else (set_device e.device_id d s, [])

unfoldable pub on_sound : Limits → SoundTurner → Event → State → State × List Command
on_sound l c e s =
    if not (e.name == "sound_event") || is_anonymous e.device_id
    then (s, [])
    else elim (direction_of (lookup "direction" e.payload)) [
      | none ↦ (s, [])
      | some direction ↦ turn_to_sound l c direction e s
    ]

unfoldable pub turn_to_speaker :
    Limits → WakeWordTurner → Direction → Event → State → State × List Command
turn_to_speaker l c direction e s =
    let d = device e.device_id s in
    let yaw = yaw_of c.yaw_deg direction in
    if is_face_present d then (set_device e.device_id d s, []) else (
      head_turn l e.device_id
          (("yaw", Value.num yaw)
            ∷ ("pitch", Value.num (pos 0))
            ∷ ("speed", Value.num (pos c.speed))
            ∷ ("reason", Value.text "wake_word")
            ∷ ("direction", or_null (lookup "direction" e.payload))
            ∷ ("phrase", phrase_of (lookup "phrase" e.payload))
            ∷ [])
          e.ts (set_device e.device_id (record d { last_sound_turn_t = some e.ts }) s),
      set_head_angles e.device_id yaw (pos 0) c.speed ∷ [],
    )

-- The wake-word turner acts on `left` and `right` alone.
unfoldable pub on_wake_word : Limits → WakeWordTurner → Event → State → State × List Command
on_wake_word l c e s =
    if not (e.name == "wake_word_detected") || is_anonymous e.device_id
    then (s, [])
    else elim (direction_of (lookup "direction" e.payload)) [
      | none ↦ (s, [])
      | some left ↦ turn_to_speaker l c left e s
      | some centre ↦ (s, [])
      | some right ↦ turn_to_speaker l c right e s
    ]
