-- ===== src/Consumers/Aborter.antt =====
-- dotty-behaviour/consumers/face_lost_aborter.py and face_identified_refresher.py.
use dotty_stackchan.Prelude.{
  ◌++◌, ℕ, ◌+◌, String, Bool, true, false, not, ◌&&◌, Option, none, some, List, [], ◌∷◌, ◌==◌, ltb,
  leb, nat_eq, if◌then◌else◌,
}
use dotty_stackchan.Dict.{Dict, lookup, insert, remove}
use dotty_stackchan.Perception.Types.{Event, Device, or_zero, is_set, State}
use dotty_stackchan.Perception.Update.{device, set_device, get_fresh_face_id}
use dotty_stackchan.Perception.Bus.{is_anonymous}
use dotty_stackchan.Consumers.Commands.{Command, abort, set_face_identified}

pub record FaceLostAborter : Type 0 where
  pub window_sec : ℕ
  pub grace_sec : ℕ

-- A task of `_delayed_abort`: when its sleep ends, and `task.done()`.
pub record Task : Type 0 where
  pub fires_at : ℕ
  pub is_done : Bool

-- `self._pending`. A task that is cancelled is always taken out of it.
abbrev pub Pending : Type 0
Pending = Dict Task

-- An event that arrives at the loop time `clock`.
unfoldable pub on_face_change : FaceLostAborter → ℕ → Event → State × Pending → State × Pending
on_face_change c clock e (s, pending) =
    let d = device e.device_id s in
    if is_anonymous e.device_id
    then (s, pending)
    else if e.name == "face_detected"
    then (s, remove e.device_id pending)
    else if not (e.name == "face_lost")
    then (s, pending)
    else if ltb (or_zero d.last_face_greet_t + c.window_sec) e.ts
    then (set_device e.device_id d s, pending)
    else (
      set_device e.device_id d s,
      insert e.device_id (record { fires_at = clock + c.grace_sec; is_done = false })
          (remove e.device_id pending),
    )

abbrev pub is_due : ℕ → Option Task → Bool
is_due now none = false
is_due now (some t) = not t.is_done && leb t.fires_at now

-- The event loop comes to the task of a device at the time `now`.
unfoldable pub wake_task : String → ℕ → Pending → Pending × List Command
wake_task device_id now pending =
    if is_due now (lookup device_id pending)
    then (
      insert device_id (record { fires_at = now; is_done = true }) pending,
      abort device_id ∷ [],
    )
    else (pending, [])

pub record FaceIdentifiedRefresher : Type 0 where
  pub ttl_sec : ℕ
  pub quiet_after_lost_sec : ℕ

-- Whether a round of the refresher lights the face of one device.
unfoldable pub lights : FaceIdentifiedRefresher → ℕ → String → State → Bool
lights c wall_now device_id s =
    let d = device device_id s in
    let last_lost = or_zero d.last_face_lost_t in
    let quiet =
      not (is_set d.face_present)
      && not (nat_eq last_lost 0)
      && ltb (last_lost + c.quiet_after_lost_sec) wall_now in
    elim (get_fresh_face_id device_id c.ttl_sec wall_now s) [ none ↦ false | some _ ↦ not quiet ]

-- One round over `list(self._state.state.items())`.
unfoldable pub refresh_from : FaceIdentifiedRefresher → ℕ → State → Dict Device → List Command
refresh_from c wall_now s [] = []
refresh_from c wall_now s ((id, d) ∷ rest) =
    let more = refresh_from c wall_now s rest in
    if lights c wall_now id s then set_face_identified id ∷ more else more

unfoldable pub refresh : FaceIdentifiedRefresher → ℕ → State → List Command
refresh c wall_now s = refresh_from c wall_now s s.devices

-- What happens to the aborter: an event that arrives at a loop time, or the wake-up of a task.
pub data Tick : Type 0 where
  arrives : ℕ → Event → Tick
  wakes : String → ℕ → Tick

-- The aborts that one device is sent over a run.
unfoldable pub aborts : FaceLostAborter → String → List Tick → State × Pending → List Command
aborts c id [] (s, pending) = []
aborts c id (arrives clock e ∷ ticks) (s, pending) =
    aborts c id ticks (on_face_change c clock e (s, pending))
aborts c id (wakes j now ∷ ticks) (s, pending) =
    let (pending', commands) = wake_task j now pending in
    let rest = aborts c id ticks (s, pending') in if j == id then commands ++ rest else rest
