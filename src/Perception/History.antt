-- ===== src/Perception/History.antt =====
-- A fact about one device after a history of events that reached the perception route.
use dotty_stackchan.Prelude.{
  inr, ap, ◌∙◌, inl, Bool-cases, String, ◌≡◌, refl, Option, none, some, List, [], ◌∷◌, arith,
  eq_iff, if◌then◌else◌,
}
use dotty_stackchan.Perception.Types.{Event, Device, no_device, State, Limits}
use dotty_stackchan.Perception.Update.{update_device, device, update_state, set_device}
use dotty_stackchan.Perception.Bus.{feed, broadcast, perception_event}
use dotty_stackchan.Perception.Ring.{from_device}
use dotty_stackchan.Dict.{get_or-insert}

abbrev pub or_else {ℓ} : {A : Type ℓ} → A → Option A → A
or_else before none = before
or_else before (some x) = x

-- What the newest event of the device that says anything says, oldest event first.
abbrev pub latest {ℓ} : {A : Type ℓ} → (Event → Option A) → String → List Event → A → A
latest f id [] before = before
latest f id (e ∷ es) before =
    latest f id es (if from_device id e then or_else before (f e) else before)

pub devices-broadcast : (l : Limits) (e : Event) (s : State) → (broadcast l e s).devices ≡ s.devices
unfolding broadcast
devices-broadcast l e s = ground arith

pub device_step :
    (l : Limits) (e : Event) (s : State) (id : String)
    → device id (perception_event l e s).0 ≡ (
        if from_device id e
        then (update_device e.name e.payload e.ts (device id s)).0
        else device id s)
unfolding perception_event update_state
device_step l e s id = ground (
  arith,
  devices-broadcast l e
      (set_device e.device_id (update_device e.name e.payload e.ts (device e.device_id s)).0 s),
  get_or-insert e.device_id id (update_device e.name e.payload e.ts (device e.device_id s)).0
      no_device s.devices,
  eq_iff e.device_id id,
)

-- A fact about one device that every event sets or leaves alone is set by the newest that sets it.
module _ {A : Type 0} (obs : Device → A) (f : Event → Option A)
    (step : (e : Event) (d : Device)
      → obs (update_device e.name e.payload e.ts d).0 ≡ or_else (obs d) (f e)) where
  latest_step :
      (l : Limits) (e : Event) (s : State) (id : String)
      → obs (device id (perception_event l e s).0)
        ≡ (if from_device id e then or_else (obs (device id s)) (f e) else obs (device id s))
  latest_step l e s id = elim (Bool-cases (from_device id e)) [
    | inl mine ↦ rw (device_step l e s id, mine) (step e (device id s))
    | inr other ↦ rw (device_step l e s id, other) refl
  ]

  pub latest-feed :
      (l : Limits) (es : List Event) (s : State) (id : String)
      → obs (device id (feed l es s)) ≡ latest f id es (obs (device id s))
  unfolding feed
  latest-feed l [] s id = refl
  latest-feed l (e ∷ es) s id =
      latest-feed l es (perception_event l e s).0 id ∙ ap (latest f id es) (latest_step l e s id)
