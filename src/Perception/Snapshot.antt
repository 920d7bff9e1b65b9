-- ===== src/Perception/Snapshot.antt =====
-- dotty-behaviour/perception/snapshot.py: the read-only view of one device for the prompt, and
-- `pick_idle_device` and `annotate_for_introspection` of state.py.
use dotty_stackchan.Prelude.{
  ℕ, ◌-◌, String, Bool, false, not, ◌&&◌, ◌||◌, Option, none, some, [], ◌∷◌, ◌==◌, if◌then◌else◌,
  ltb, leb, is_blank, to_lower,
}
use dotty_stackchan.Dict.{Dict, lookup, get_or}
use dotty_stackchan.Perception.Types.{Device, no_device, or_zero, is_set, CacheEntry, State}
use dotty_stackchan.Perception.Update.{stripped_or_empty}

pub data FaceState : Type 0 where
  off detected identified : FaceState

-- The ages in ticks up to which a fact counts as fresh: the module's constants.
pub record Gates : Type 0 where
  pub vision : ℕ
  pub audio : ℕ
  pub scene : ℕ
  pub face_identity : ℕ

pub record Snapshot : Type 0 where
  pub state : String
  pub face : FaceState
  pub face_id : Option String
  pub face_mood : Option String
  pub listening : Bool
  pub last_vision_desc : Option String
  pub last_vision_age_s : Option ℕ
  pub last_audio_desc : Option String
  pub last_audio_age_s : Option ℕ
  pub scene_synth : Option String
  pub scene_synth_age_s : Option ℕ

-- `_age_or_none`: the age is not negative, so the truncated difference is exact.
abbrev pub age_or_none : ℕ → Option ℕ → Option ℕ
age_or_none now none = none
age_or_none now (some wall_ts) = some (now - wall_ts)

-- `age is not None and age <= gate`
abbrev pub is_within : ℕ → Option ℕ → Bool
is_within gate none = false
is_within gate (some age) = leb age gate

-- The text of a cache entry if there is one and it is fresh, with its age.
unfoldable pub fresh_text : ℕ → ℕ → Option CacheEntry → Option (String × ℕ)
fresh_text now gate none = none
fresh_text now gate (some entry) =
    let desc = stripped_or_empty entry.description in
    elim (age_or_none now entry.wall_ts) [
      | none ↦ none
      | some age ↦ if not (is_blank desc) && leb age gate then some (desc, age) else none
    ]

-- `cache.get(device_id) or {}` under `if device_id`.
abbrev entry_of : String → Dict CacheEntry → Option CacheEntry
entry_of device_id cache = if is_blank device_id then none else lookup device_id cache

abbrev pub fst? : Option (String × ℕ) → Option String
fst? none = none
fst? (some (a, b)) = some a

abbrev pub snd? : Option (String × ℕ) → Option ℕ
snd? none = none
snd? (some (a, b)) = some b

unfoldable pub identity_fresh : Gates → ℕ → Device → Bool
identity_fresh g now d =
    let identity = stripped_or_empty d.last_face_id in
    not (is_blank identity)
    && not (identity == "unknown")
    && is_within g.face_identity (age_or_none now d.last_face_recognized_t)

unfoldable pub face_of : Gates → ℕ → Device → FaceState × Option String
unfolding identity_fresh
face_of g now d =
    if identity_fresh g now d
    then (identified, some (stripped_or_empty d.last_face_id))
    else if is_set d.face_present
    then (detected, none)
    else (off, none)

unfoldable pub mood_of : Gates → ℕ → Device → FaceState → Option String
mood_of g now d identified =
    let raw_mood = to_lower (stripped_or_empty d.face_mood) in
    if not (is_blank raw_mood) && is_within g.face_identity (age_or_none now d.face_mood_t)
    then some raw_mood
    else none
mood_of g now d _ = none

-- `pstate.get("current_state") or "idle"`
abbrev pub state_or_idle : Option String → String
state_or_idle none = "idle"
state_or_idle (some st) = if is_blank st then "idle" else st

-- `snapshot` at the time `now`; the device `None` is the empty text.
unfoldable pub snapshot : Gates → ℕ → String → State → Snapshot
snapshot g now device_id s =
    let d = if is_blank device_id then no_device else get_or device_id no_device s.devices in
    let (face, face_id) = face_of g now d in
    let vision = fresh_text now g.vision (entry_of device_id s.vision_cache) in
    let audio = fresh_text now g.audio (entry_of device_id s.audio_cache) in
    let scene = fresh_text now g.scene (entry_of device_id s.scene_synthesis_cache) in
    record {
      state = state_or_idle d.current_state;
      face = face;
      face_id = face_id;
      face_mood = mood_of g now d face;
      listening = is_set d.listening;
      last_vision_desc = fst? vision;
      last_vision_age_s = snd? vision;
      last_audio_desc = fst? audio;
      last_audio_age_s = snd? audio;
      scene_synth = fst? scene;
      scene_synth_age_s = snd? scene;
    }

-- `max(vision_cache.items(), key=...)`: the first of the newest entries.
unfoldable pub newest_entry : String → ℕ → Dict CacheEntry → String
newest_entry best t [] = best
newest_entry best t ((k, e) ∷ rest) =
    let newer = ltb t (or_zero e.wall_ts) in
    newest_entry (if newer then k else best) (if newer then or_zero e.wall_ts else t) rest

unfoldable pub first_known : Dict Device → Option String
first_known [] = none
first_known ((k, d) ∷ rest) =
    let other = first_known rest in if is_blank k || k == "unknown" then other else some k

unfoldable pub pick_idle_device : State → Option String
unfolding newest_entry first_known
pick_idle_device s = elim s.vision_cache [
  | [] ↦ first_known s.devices
  | (k, e) ∷ rest ↦ some (newest_entry k (or_zero e.wall_ts) rest)
]
