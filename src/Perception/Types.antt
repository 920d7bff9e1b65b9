-- ===== src/Perception/Types.antt =====
-- The data of dotty-behaviour/perception/state.py: events, the state of one device, the event bus
-- and `PerceptionState` itself. Times are ticks of a clock, from 0; a key that a Python dict may
-- lack is an `Option`.
use dotty_stackchan.Prelude.{
  ℕ, String, Bool, false, not, Option, none, some, List, [], is_blank, is_zero, ℤ,
}
use dotty_stackchan.Dict.{Dict}

-- What JSON can hold. A list, a mapping or a fraction is `other`, with its truth value.
pub data Value : Type 0 where
  null : Value
  bool : Bool → Value
  num : ℤ → Value
  text : String → Value
  other : Bool → Value

abbrev pub Data : Type 0
Data = Dict Value

-- `bool(data.get(key))`
unfoldable pub is_true : Option Value → Bool
is_true none = false
is_true (some null) = false
is_true (some (bool b)) = b
is_true (some (num n)) = not (is_zero n)
is_true (some (text s)) = not (is_blank s)
is_true (some (other b)) = b

-- `PerceptionEvent`; the field `data` is `payload` here.
pub record Event : Type 0 where
  pub device_id : String
  pub name : String
  pub payload : Data
  pub ts : ℕ

-- One entry of `PerceptionState.state`, with the keys that the consumers add.
pub record Device : Type 0 where
  pub last_event_t : Option ℕ
  pub last_event_name : Option String
  pub face_present : Option Bool
  pub last_face_t : Option ℕ
  pub last_face_lost_t : Option ℕ
  pub last_sound_dir : Option Value
  pub last_sound_t : Option ℕ
  pub last_sound_energy : Option Value
  pub current_state : Option String
  pub last_state_change_t : Option ℕ
  pub dance_active : Option Bool
  pub last_dance_started_t : Option ℕ
  pub last_dance_ended_t : Option ℕ
  pub listening : Option Bool
  pub last_chat_status_t : Option ℕ
  pub last_face_id : Option String
  pub last_face_recognized_t : Option ℕ
  pub face_mood : Option String
  pub face_mood_t : Option ℕ
  pub last_face_greet_t : Option ℕ
  pub last_name_greet_t : Dict ℕ
  pub last_chat_t : Option ℕ
  pub last_sound_turn_t : Option ℕ
  pub last_purr_t : Option ℕ

-- `{}`, what `setdefault` puts in for a new device.
abbrev pub no_device : Device
no_device = record {
  last_event_t = none;
  last_event_name = none;
  face_present = none;
  last_face_t = none;
  last_face_lost_t = none;
  last_sound_dir = none;
  last_sound_t = none;
  last_sound_energy = none;
  current_state = none;
  last_state_change_t = none;
  dance_active = none;
  last_dance_started_t = none;
  last_dance_ended_t = none;
  listening = none;
  last_chat_status_t = none;
  last_face_id = none;
  last_face_recognized_t = none;
  face_mood = none;
  face_mood_t = none;
  last_face_greet_t = none;
  last_name_greet_t = [];
  last_chat_t = none;
  last_sound_turn_t = none;
  last_purr_t = none;
}

-- `device.get(key, 0.0)`
abbrev pub or_zero : Option ℕ → ℕ
or_zero none = 0
or_zero (some t) = t

-- `bool(device.get(key))`
abbrev pub is_set : Option Bool → Bool
is_set none = false
is_set (some b) = b

-- `asyncio.Queue`: its identity and what waits in it, oldest first.
pub record Queue : Type 0 where
  pub id : ℕ
  pub items : List Event

-- An entry of the vision, audio or scene cache: when it was written, and its text.
pub record CacheEntry : Type 0 where
  pub wall_ts : Option ℕ
  pub description : Option String

pub record State : Type 0 where
  pub listeners : List Queue
  pub next_queue : ℕ
  pub devices : Dict Device
  pub recent : Dict (List Event)
  pub vision_cache : Dict CacheEntry
  pub audio_cache : Dict CacheEntry
  pub scene_synthesis_cache : Dict CacheEntry
  pub vision_waiters : Dict (List ℕ)
  pub audio_waiters : Dict (List ℕ)
  pub next_waiter : ℕ
  pub signalled : List ℕ

-- `PerceptionState()`
abbrev pub init : State
init = record {
  listeners = [];
  next_queue = 0;
  devices = [];
  recent = [];
  vision_cache = [];
  audio_cache = [];
  scene_synthesis_cache = [];
  vision_waiters = [];
  audio_waiters = [];
  next_waiter = 0;
  signalled = [];
}

-- PERCEPTION_QUEUE_MAX and PERCEPTION_RECENT_MAX of dotty-behaviour/config.py.
pub record Limits : Type 0 where
  pub queue_max : ℕ
  pub recent_max : ℕ
