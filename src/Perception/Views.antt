-- ===== src/Perception/Views.antt =====
-- The snapshot of a device against the readers of its state.
use dotty_stackchan.Prelude.{
  ℕ, ◌+◌, String, ◌≡◌, refl, ◌≢◌, inl, inr, false, ◌||◌, none, some, arith, ◌==◌, ltb, nat_eq,
  if◌then◌else◌, Option-cases, is_blank,
}
use dotty_stackchan.Perception.Types.{Device, or_zero, State}
use dotty_stackchan.Perception.Update.{device, stripped_or_empty, get_fresh_face_id}
use dotty_stackchan.Perception.Snapshot.{Gates, snapshot, identified, FaceState, mood_of, face_of}

face_of-fresh :
    (g : Gates) (now : ℕ) (d : Device)
    → d.last_face_recognized_t ≢ some 0
    → (face_of g now d).1 ≡ (
        if is_blank (stripped_or_empty d.last_face_id)
          || stripped_or_empty d.last_face_id == "unknown"
        then none
        else if nat_eq (or_zero d.last_face_recognized_t) 0
        then none
        else if ltb (or_zero d.last_face_recognized_t + g.face_identity) now
        then none
        else some (stripped_or_empty d.last_face_id))
unfolding face_of
face_of-fresh g now d h = elim (Option-cases d.last_face_recognized_t) [
  | inl never ↦ rw never (ground arith)
  | inr (t, at) ↦ rw at (ground arith)
]

-- The snapshot names a face exactly when `get_fresh_face_id` does, with the snapshot's age gate as
-- the limit, at any device with a name and any time of its last recognition but 0.
pub face_id-snapshot :
    (g : Gates) (now : ℕ) (id : String) (s : State)
    → is_blank id ≡ false
    → (device id s).last_face_recognized_t ≢ some 0
    → (snapshot g now id s).face_id ≡ get_fresh_face_id id g.face_identity now s
unfolding snapshot get_fresh_face_id
face_id-snapshot g now id s named t = rw named (face_of-fresh g now (device id s) t)

mood_of-identified :
    (g : Gates) (now : ℕ) (d : Device) (face : FaceState) {mood : String}
    → mood_of g now d face ≡ some mood
    → face ≡ identified
unfolding mood_of
mood_of-identified g now d identified h = refl
mood_of-identified g now d _ h = cc

-- A snapshot reports a mood only beside a face that it identifies.
face_mood-snapshot :
    (g : Gates) (now : ℕ) (id : String) (s : State) (mood : String)
    → (snapshot g now id s).face_mood ≡ some mood
    → (snapshot g now id s).face ≡ identified
unfolding snapshot
face_mood-snapshot g now id s mood h = mood_of-identified g now _ _ h
