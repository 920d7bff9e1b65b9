-- ===== src/Consumers/Aborts.antt =====
-- How often a lost face aborts what a device is doing.
use dotty_stackchan.Prelude.{
  ℕ, ◌+◌, ◌≤◌, String, ◌≡◌, inl, inr, Bool, true, false, ◌&&◌, Option, none, some, List, [], ◌∷◌,
  arith, ◌==◌, eq_iff, eq_refl, if◌then◌else◌, Bool-cases, length, length-append,
}
use dotty_stackchan.Dict.{lookup, remove, lookup-insert, lookup-remove}
use dotty_stackchan.Perception.Types.{Event, State}
use dotty_stackchan.Perception.Bus.{is_anonymous}
use dotty_stackchan.Consumers.Aborter.{
  FaceLostAborter, Task, Pending, on_face_change, wake_task, Tick, arrives, wakes, aborts,
}

-- 1 while a task of the device sleeps.
abbrev pub live : Option Task → ℕ
live none = 0
live (some t) = if t.is_done then 0 else 1

abbrev pub is_loss : String → Event → Bool
is_loss id e = e.name == "face_lost" && e.device_id == id

-- How many lost faces of the device arrive.
abbrev pub losses : String → List Tick → ℕ
losses id [] = 0
losses id (arrives clock e ∷ ticks) = (if is_loss id e then 1 else 0) + losses id ticks
losses id (wakes j now ∷ ticks) = losses id ticks

live-on_face_change :
    (c : FaceLostAborter) (clock : ℕ) (e : Event) (s : State) (pending : Pending) (id : String)
    → live (lookup id (on_face_change c clock e (s, pending)).1)
      ≤ live (lookup id pending) + (if is_loss id e then 1 else 0)
unfolding on_face_change
live-on_face_change c clock e s pending id = ground (
  arith,
  eq_iff e.name "face_detected",
  eq_iff e.name "face_lost",
  eq_iff e.device_id id,
  lookup-remove e.device_id id pending,
  lookup-insert e.device_id id (record { fires_at = clock + c.grace_sec; is_done = false })
      (remove e.device_id pending),
)

live-wake_task :
    (j : String) (now : ℕ) (pending : Pending) (id : String)
    → length (if j == id then (wake_task j now pending).1 else [])
        + live (lookup id (wake_task j now pending).0)
      ≤ live (lookup id pending)
unfolding wake_task
live-wake_task j now pending id =
    ground
      (arith, eq_iff j id, lookup-insert j id (record { fires_at = now; is_done = true }) pending)

aborts_bound :
    (c : FaceLostAborter) (id : String) (ticks : List Tick) (s : State) (pending : Pending)
    → length (aborts c id ticks (s, pending)) ≤ live (lookup id pending) + losses id ticks
unfolding aborts
aborts_bound c id [] s pending = omega arith
aborts_bound c id (arrives clock e ∷ ticks) s pending =
    let (t, p) = on_face_change c clock e (s, pending) in
    omega (arith, aborts_bound c id ticks t p, live-on_face_change c clock e s pending id)
aborts_bound c id (wakes j now ∷ ticks) s pending =
    let (p, commands) = wake_task j now pending in
    elim (Bool-cases (j == id)) [
      | inl mine ↦
          rw (mine, length-append)
            (omega
              (arith, aborts_bound c id ticks s p, rw mine at (live-wake_task j now pending id)))
      | inr other ↦ rw other (
          omega (arith, aborts_bound c id ticks s p, rw other at (live-wake_task j now pending id)))
    ]

-- Once a named device sees a face, a run aborts it at most once for each face that is lost after
-- that: the abort that was pending is gone, and none is sent twice.
pub aborts-face_detected :
    (c : FaceLostAborter) (clock : ℕ) (e : Event) (ticks : List Tick) (s : State)
    (pending : Pending)
    → e.name ≡ "face_detected"
    → is_anonymous e.device_id ≡ false
    → length (aborts c e.device_id (arrives clock e ∷ ticks) (s, pending))
      ≤ losses e.device_id ticks
unfolding aborts on_face_change
aborts-face_detected c clock e ticks s pending seen named = ground (
  arith,
  eq_iff e.name "face_detected",
  aborts_bound c e.device_id ticks s (remove e.device_id pending),
  lookup-remove e.device_id e.device_id pending,
  eq_refl e.device_id,
)
