-- ===== src/Perception/Update.antt =====
-- `update_state` and its readers of dotty-behaviour/perception/state.py.
use dotty_stackchan.Prelude.{
  is_zero, ℕ, ◌+◌, String, Bool, true, false, ◌||◌, Option, none, some, ◌==◌, if◌then◌else◌, ltb,
  nat_eq, is_blank, strip, to_lower,
}
use dotty_stackchan.Dict.{lookup, get_or, insert}
use dotty_stackchan.Perception.Types.{
  Value, bool, num, text, other, Data, is_true, Device, no_device, or_zero, is_set, State,
}

-- How a call ends: `.strip()` of a value that is no text raises.
pub data Outcome : Type 0 where
  done attribute_error : Outcome

-- `(data.get(key) or "").strip()`; `none` is the exception.
unfoldable pub stripped_text : Option Value → Option String
stripped_text (some (text s)) = some (strip s)
stripped_text (some (bool true)) = none
stripped_text (some (other true)) = none
stripped_text (some (num n)) = if is_zero n then some "" else none
stripped_text _ = some ""

-- The branch of `state_changed`, from the value of `data.get("state")`.
unfoldable pub change_state : Option String → ℕ → Device → Device × Outcome
unfolding to_lower
change_state none ts d = (d, attribute_error)
change_state (some s) ts d =
    let new_state = to_lower s in
    if is_blank new_state then (d, done) else (
      record d {
        current_state = some new_state;
        last_state_change_t = some ts;
        dance_active =
            if new_state == "dance"
            then some true
            else if is_set d.dance_active
            then some false
            else d.dance_active;
      },
      done,
    )

-- The branch of `face_recognized`, from the value of `data.get("identity")`.
unfoldable pub recognize : Option String → ℕ → Device → Device × Outcome
recognize none ts d = (d, attribute_error)
recognize (some identity) ts d =
    if is_blank identity
    then (d, done)
    else (record d { last_face_id = some identity; last_face_recognized_t = some ts }, done)

-- The names that `update_state` compares with.
pub data Kind : Type 0 where
  face_detected face_lost sound_event state_changed dance_started : Kind
  dance_ended chat_status face_recognized unhandled : Kind

unfoldable pub kind_of : String → Kind
kind_of name =
    if name == "face_detected"
    then face_detected
    else if name == "face_lost"
    then face_lost
    else if name == "sound_event"
    then sound_event
    else if name == "state_changed"
    then state_changed
    else if name == "dance_started"
    then dance_started
    else if name == "dance_ended"
    then dance_ended
    else if name == "chat_status"
    then chat_status
    else if name == "face_recognized"
    then face_recognized
    else unhandled

-- The `if`/`elif` chain of `update_state`.
unfoldable pub apply_event : Kind → Data → ℕ → Device → Device × Outcome
unfolding change_state recognize
apply_event face_detected payload ts s =
    (record s { face_present = some true; last_face_t = some ts }, done)
apply_event face_lost payload ts s =
    (record s { face_present = some false; last_face_lost_t = some ts }, done)
apply_event sound_event payload ts s = (
  record s {
    last_sound_dir = lookup "direction" payload;
    last_sound_t = some ts;
    last_sound_energy = lookup "energy" payload;
  },
  done,
)
apply_event state_changed payload ts s = change_state (stripped_text (lookup "state" payload)) ts s
apply_event dance_started payload ts s =
    (record s { dance_active = some true; last_dance_started_t = some ts }, done)
apply_event dance_ended payload ts s =
    (record s { dance_active = some false; last_dance_ended_t = some ts }, done)
apply_event chat_status payload ts s = (
  record s {
    listening = some (is_true (lookup "listening" payload));
    last_chat_status_t = some ts;
  },
  done,
)
apply_event face_recognized payload ts s =
    recognize (stripped_text (lookup "identity" payload)) ts s
apply_event unhandled payload ts s = (s, done)

-- The body of `update_state` on the entry of one device.
unfoldable pub update_device : String → Data → ℕ → Device → Device × Outcome
unfolding apply_event
update_device name payload ts d =
    apply_event (kind_of name) payload ts
      (record d { last_event_t = some ts; last_event_name = some name })

-- `self.state.get(device_id, {})`
abbrev pub device : String → State → Device
device id s = get_or id no_device s.devices

-- `self.state.setdefault(device_id, {})`, written back after a change.
abbrev pub set_device : String → Device → State → State
set_device id d s = record s { devices = insert id d s.devices }

unfoldable pub update_state : String → String → Data → ℕ → State → State × Outcome
update_state id name payload ts s =
    let (d, outcome) = update_device name payload ts (device id s) in (set_device id d s, outcome)

unfoldable pub is_dance_active : String → State → Bool
is_dance_active id s = is_set (device id s).dance_active

unfoldable pub current_device_state : String → State → String
current_device_state id s = elim (device id s).current_state [ none ↦ "idle" | some st ↦ st ]

-- The text of `get_fresh_face_id` after `(state.get("last_face_id") or "").strip()`.
abbrev pub stripped_or_empty : Option String → String
stripped_or_empty none = ""
stripped_or_empty (some s) = strip s

unfoldable pub get_fresh_face_id : String → ℕ → ℕ → State → Option String
get_fresh_face_id id ttl now s =
    let identity = stripped_or_empty (device id s).last_face_id in
    let last_t = or_zero (device id s).last_face_recognized_t in
    if is_blank identity || identity == "unknown"
    then none
    else if nat_eq last_t 0
    then none
    else if ltb (last_t + ttl) now
    then none
    else some identity
