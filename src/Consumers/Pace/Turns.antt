-- ===== src/Consumers/Pace/Turns.antt =====
-- The steps of the turners and of the purr player keep the pace.
use dotty_stackchan.Prelude.{
  ◌||◌, ltb, not, [], ℕ, ◌+◌, String, ◌≡◌, refl, ap, ◌∙◌, inl, inr, Option, none, some, arith, ◌==◌,
  eq_iff, Bool-cases,
}
use mathlib.Core.Path.{subst}
use dotty_stackchan.Dict.{lookup}
use dotty_stackchan.Perception.Types.{Event, Device, or_zero, State}
use dotty_stackchan.Perception.Update.{device}
use dotty_stackchan.Perception.Bus.{is_anonymous}
use dotty_stackchan.Consumers.Purr.{on_head_pet, event_time}
use dotty_stackchan.Consumers.Turners.{
  is_face_present, turn_to_speaker, on_sound, on_wake_word, left, right, centre, direction_of,
  may_turn, turn_to_sound, Direction,
}
use dotty_stackchan.Consumers.System.{summoned, petted, System, heard, sound_turn}
use dotty_stackchan.Consumers.Pace.Basics.{
  pace, Allowed, Step, device-set_device, pace-turned, may_turn-far, pace-touch,
}

turn_to_sound-Step :
    (y : System) (id : String) (direction : Direction) (e : Event) (s : State)
    → Step y id (heard e) s (turn_to_sound y.limits y.sound direction e s)
unfolding turn_to_sound
turn_to_sound-Step y id direction e s =
    elim (Bool-cases (may_turn y.sound (device e.device_id s) e.ts)) [
      | inl go ↦ elim (Bool-cases (e.device_id == id)) [
        | inl mine ↦
            let here : e.device_id ≡ id = (eq_iff e.device_id id).0 mine in
            rw (go, mine)
              (
                (pace-turned y.limits e.device_id id _ e.ts _ s
                    ∙ rw mine (ap (λ j. (e.ts, or_zero (device j s).last_chat_t)) here)),
                subst (λ j. Allowed y.sound (pace (device j s)) (some (sound_turn e.ts))) here
                    (may_turn-far y.sound (device e.device_id s) e.ts go),
              )
        | inr other ↦
            rw (go, other) ((pace-turned y.limits e.device_id id _ e.ts _ s ∙ rw other refl), tt)
      ]
      | inr stay ↦ rw stay (
        ground (
          arith,
          device-set_device e.device_id id (device e.device_id s) s,
          eq_iff e.device_id id,
        ),
        tt,
      )
    ]

pub on_sound-Step :
    (y : System) (id : String) (e : Event) (s : State)
    → Step y id (heard e) s (on_sound y.limits y.sound e s)
unfolding on_sound
on_sound-Step y id e s =
    elim (Bool-cases (not (e.name == "sound_event") || is_anonymous e.device_id)) [
      | inl skip ↦ rw skip (refl, tt)
      | inr go ↦ rw go (known (direction_of (lookup "direction" e.payload)))
    ]
  where
    known :
        (o : Option Direction)
        → Step y id (heard e) s (elim o [
          | none ↦ (s, [])
          | some direction ↦ turn_to_sound y.limits y.sound direction e s
        ])
    known none = (refl, tt)
    known (some direction) = turn_to_sound-Step y id direction e s

turn_to_speaker-Step :
    (y : System) (id : String) (direction : Direction) (e : Event) (s : State)
    → Step y id (summoned e) s (turn_to_speaker y.limits y.wake direction e s)
unfolding turn_to_speaker
turn_to_speaker-Step y id direction e s =
    elim (Bool-cases (is_face_present (device e.device_id s))) [
      | inl tracked ↦ rw tracked (pace-touch e.device_id id s, tt)
      | inr go ↦ elim (Bool-cases (e.device_id == id)) [
        | inl mine ↦
            let here : e.device_id ≡ id = (eq_iff e.device_id id).0 mine in
            rw (go, mine)
              (
                (pace-turned y.limits e.device_id id _ e.ts _ s
                    ∙ rw mine (ap (λ j. (e.ts, or_zero (device j s).last_chat_t)) here)),
                tt,
              )
        | inr other ↦
            rw (go, other) ((pace-turned y.limits e.device_id id _ e.ts _ s ∙ rw other refl), tt)
      ]
    ]

pub on_wake_word-Step :
    (y : System) (id : String) (e : Event) (s : State)
    → Step y id (summoned e) s (on_wake_word y.limits y.wake e s)
unfolding on_wake_word
on_wake_word-Step y id e s =
    elim (Bool-cases (not (e.name == "wake_word_detected") || is_anonymous e.device_id)) [
      | inl skip ↦ rw skip (refl, tt)
      | inr go ↦ rw go (known (direction_of (lookup "direction" e.payload)))
    ]
  where
    known :
        (o : Option Direction)
        → Step y id (summoned e) s (elim o [
          | none ↦ (s, [])
          | some left ↦ turn_to_speaker y.limits y.wake left e s
          | some centre ↦ (s, [])
          | some right ↦ turn_to_speaker y.limits y.wake right e s
        ])
    known none = (refl, tt)
    known (some left) = turn_to_speaker-Step y id left e s
    known (some centre) = (refl, tt)
    known (some right) = turn_to_speaker-Step y id right e s

pub on_head_pet-Step :
    (y : System) (id : String) (clock : ℕ) (e : Event) (s : State)
    → Step y id (petted clock e) s (on_head_pet y.purr clock e s)
unfolding on_head_pet
on_head_pet-Step y id clock e s =
    elim (Bool-cases (not (e.name == "head_pet_started") || is_anonymous e.device_id)) [
      | inl skip ↦ rw skip (refl, tt)
      | inr go ↦ elim (Bool-cases (ltb now (or_zero d.last_purr_t + y.purr.cooldown_sec))) [
        | inl soon ↦ rw (go, soon) (pace-touch e.device_id id s, tt)
        | inr late ↦ elim (Bool-cases (e.device_id == id)) [
          | inl mine ↦
              let here : e.device_id ≡ id = (eq_iff e.device_id id).0 mine in
              rw (go, late, mine)
                (
                  (ap pace (device-set_device e.device_id id purred s)
                      ∙ rw mine (
                          ap
                            (λ j.
                              (or_zero (device j s).last_sound_turn_t, now + y.purr.duration_sec))
                            here)),
                  tt,
                )
          | inr other ↦
              rw (go, late, other)
                ((ap pace (device-set_device e.device_id id purred s) ∙ rw other refl), tt)
        ]
      ]
    ]
  where
    now : ℕ
    now = event_time e.ts clock

    d : Device
    d = device e.device_id s

    purred : Device
    purred = record d { last_purr_t = some now; last_chat_t = some (now + y.purr.duration_sec) }
