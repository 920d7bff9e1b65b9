-- ===== src/Consumers/FaceGreeter.antt =====
-- One event of dotty-behaviour/consumers/face_greeter.py.
use dotty_stackchan.Prelude.{
  ℕ, ◌+◌, String, Bool, false, not, ◌&&◌, ◌||◌, Option, none, some, List, [], ◌∷◌, ◌==◌, ltb, leb,
  if◌then◌else◌, is_blank,
}
use dotty_stackchan.Dict.{lookup, get_or, insert}
use dotty_stackchan.Perception.Types.{Event, or_zero, is_set, State}
use dotty_stackchan.Perception.Update.{stripped_text, device, set_device}
use dotty_stackchan.Perception.Bus.{is_anonymous}
use dotty_stackchan.Consumers.Commands.{Command, inject_text, say, set_face_identified}

-- What the greeter asks of the household: whether a member can be identified by a picture, and the
-- display name of an identity.
pub record Household : Type 0 where
  pub has_identifiable : Bool
  pub display_name : String → Option String

pub record FaceGreeter : Type 0 where
  pub bare_greet_text : String
  pub bare_min_interval_sec : ℕ
  pub bare_hour_start : ℕ
  pub bare_hour_end : ℕ
  pub name_template : String → String
  pub name_min_interval_sec : ℕ
  pub name_quiet_after_chat_sec : ℕ
  pub household : Option Household

abbrev pub roster_has_identifiable_members : FaceGreeter → Bool
roster_has_identifiable_members c = elim c.household [ none ↦ false | some h ↦ h.has_identifiable ]

-- `_handle_face_detected` at the local hour `hour`.
unfoldable pub handle_face_detected : FaceGreeter → ℕ → Event → State → State × List Command
handle_face_detected c hour e s =
    let d = device e.device_id s in
    if not (leb c.bare_hour_start hour && ltb hour c.bare_hour_end)
    then (s, [])
    else if roster_has_identifiable_members c
    then (s, [])
    else if ltb e.ts (or_zero d.last_face_greet_t + c.bare_min_interval_sec)
    then (set_device e.device_id d s, [])
    else (
      set_device e.device_id (record d { last_face_greet_t = some e.ts }) s,
      if is_blank c.bare_greet_text || is_set d.dance_active
          then []
          else inject_text e.device_id c.bare_greet_text ∷ [],
    )

-- The greeting of a member of the household by name.
unfoldable pub greet_by_name : FaceGreeter → String → String → Event → State → State × List Command
greet_by_name c identity name e s =
    let d = device e.device_id s in
    if ltb e.ts (or_zero d.last_chat_t + c.name_quiet_after_chat_sec)
    then (set_device e.device_id d s, [])
    else if ltb e.ts (get_or identity 0 d.last_name_greet_t + c.name_min_interval_sec)
    then (set_device e.device_id d s, [])
    else (
      set_device e.device_id
          (record d { last_name_greet_t = insert identity e.ts d.last_name_greet_t }) s,
      if is_set d.dance_active
          then []
          else say e.device_id (c.name_template name) ∷ set_face_identified e.device_id ∷ [],
    )

-- `_handle_face_recognized`: `none` is the exception of an identity that is no text, which ends
-- the consumer.
unfoldable pub handle_face_recognized : FaceGreeter → Event → State → Option (State × List Command)
handle_face_recognized c e s = elim c.household [
  | none ↦ some (s, [])
  | some h ↦ elim (stripped_text (lookup "identity" e.payload)) [
    | none ↦ none
    | some identity ↦ if is_blank identity then some (s, []) else elim (h.display_name identity) [
      | none ↦ some (s, [])
      | some name ↦ some (if is_blank name then (s, []) else greet_by_name c identity name e s)
    ]
  ]
]

-- The body of the loop in `run`.
unfoldable pub on_face : FaceGreeter → ℕ → Event → State → Option (State × List Command)
on_face c hour e s =
    if is_anonymous e.device_id
    then some (s, [])
    else if e.name == "face_recognized"
    then handle_face_recognized c e s
    else if e.name == "face_detected"
    then some (handle_face_detected c hour e s)
    else some (s, [])
