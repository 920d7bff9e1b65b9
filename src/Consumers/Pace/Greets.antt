-- ===== src/Consumers/Pace/Greets.antt =====
-- The steps of the face greeter leave the pace alone.
use dotty_stackchan.Prelude.{
  true, false, is_blank, Bool, [], ℕ, String, ◌≡◌, refl, inl, inr, true, Option, none, some, List,
  arith, ◌==◌, eq_iff, if◌then◌else◌, Bool-cases,
}
use dotty_stackchan.Dict.{insert, lookup}
use dotty_stackchan.Perception.Types.{Event, Device, State}
use dotty_stackchan.Perception.Update.{stripped_text, device, set_device}
use dotty_stackchan.Perception.Bus.{is_anonymous}
use dotty_stackchan.Consumers.Commands.{Command}
use dotty_stackchan.Consumers.FaceGreeter.{
  Household, on_face, handle_face_recognized, FaceGreeter, handle_face_detected, greet_by_name,
}
use dotty_stackchan.Consumers.Pace.Basics.{pace, device-set_device, pace-touch}

-- The face greeter writes no key that the pace is read from.
pace-set_device :
    (id j : String) (d : Device) (s : State)
    → pace d ≡ pace (device id s)
    → pace (device j (set_device id d s)) ≡ pace (device j s)
pace-set_device id j d s h = ground (arith, device-set_device id j d s, eq_iff id j)

pace-handle_face_detected :
    (c : FaceGreeter) (hour : ℕ) (e : Event) (s : State) (id : String)
    → pace (device id (handle_face_detected c hour e s).0) ≡ pace (device id s)
unfolding handle_face_detected
pace-handle_face_detected c hour e s id = ground (
  arith,
  pace-touch e.device_id id s,
  pace-set_device e.device_id id (record (device e.device_id s) { last_face_greet_t = some e.ts }) s
      refl,
)

pace-greet_by_name :
    (c : FaceGreeter) (identity name : String) (e : Event) (s : State) (id : String)
    → pace (device id (greet_by_name c identity name e s).0) ≡ pace (device id s)
unfolding greet_by_name
pace-greet_by_name c identity name e s id =
    let d = device e.device_id s in
    ground (
      arith,
      pace-touch e.device_id id s,
      pace-set_device e.device_id id
          (record d { last_name_greet_t = insert identity e.ts d.last_name_greet_t }) s refl,
    )

-- The handler leaves the pace alone, whether it returns or raises.
abbrev pub Leaves : String → State → Option (State × List Command) → Type 0
Leaves id s none = Unit
Leaves id s (some (t, cs)) = pace (device id t) ≡ pace (device id s)

Leaves-if :
    (id : String) (s : State) (b : Bool) (x y : Option (State × List Command))
    → Leaves id s x
    → Leaves id s y
    → Leaves id s (if b then x else y)
Leaves-if id s true x y hx hy = hx
Leaves-if id s false x y hx hy = hy

handle_face_recognized-Leaves :
    (c : FaceGreeter) (e : Event) (s : State) (id : String)
    → Leaves id s (handle_face_recognized c e s)
unfolding handle_face_recognized
handle_face_recognized-Leaves c e s id = household c.household
  where
    named :
        (identity : String) (o : Option String)
        → Leaves id s (elim o [
          | none ↦ some (s, [])
          | some name ↦ some (if is_blank name then (s, []) else greet_by_name c identity name e s)
        ])
    named identity none = refl
    named identity (some name) = elim (Bool-cases (is_blank name)) [
      | inl blank ↦ rw blank refl
      | inr full ↦ rw full (pace-greet_by_name c identity name e s id)
    ]

    identified :
        (h : Household) (o : Option String)
        → Leaves id s (elim o [
          | none ↦ none
          | some identity ↦
              if is_blank identity then some (s, []) else elim (h.display_name identity) [
                | none ↦ some (s, [])
                | some name ↦
                    some (if is_blank name then (s, []) else greet_by_name c identity name e s)
              ]
        ])
    identified h none = tt
    identified h (some identity) =
        Leaves-if id s (is_blank identity) (some (s, [])) _ refl
          (named identity (h.display_name identity))

    household :
        (o : Option Household)
        → Leaves id s (elim o [
          | none ↦ some (s, [])
          | some h ↦ elim (stripped_text (lookup "identity" e.payload)) [
            | none ↦ none
            | some identity ↦
                if is_blank identity then some (s, []) else elim (h.display_name identity) [
                  | none ↦ some (s, [])
                  | some name ↦
                      some (if is_blank name then (s, []) else greet_by_name c identity name e s)
                ]
          ]
        ])
    household none = refl
    household (some h) = identified h (stripped_text (lookup "identity" e.payload))

pub on_face-Leaves :
    (c : FaceGreeter) (hour : ℕ) (e : Event) (s : State) (id : String)
    → Leaves id s (on_face c hour e s)
unfolding on_face
on_face-Leaves c hour e s id = Leaves-if id s (is_anonymous e.device_id) (some (s, [])) _ refl (
    Leaves-if id s (e.name == "face_recognized") _ _ (handle_face_recognized-Leaves c e s id) (
      Leaves-if id s (e.name == "face_detected") _ _ (pace-handle_face_detected c hour e s id)
        refl))
