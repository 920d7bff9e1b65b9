-- ===== src/Greeter/Pushes.antt =====
-- What the greeter's handler sends, over any run of events.
use dotty_stackchan.Prelude.{
  append, ℕ, zero, suc, ◌+◌, ◌≤◌, String, ◌≡◌, sym, ap, Bool, true, false, ◌&&◌, Option, none, some,
  List, [], ◌∷◌, arith, ◌==◌, eq_iff, if◌then◌else◌, length, keep,
}
use mathlib.Core.Path.{subst}
use dotty_stackchan.Dict.{lookup}
use dotty_stackchan.Perception.Types.{Event}
use dotty_stackchan.Perception.Update.{stripped_text}
use dotty_stackchan.Perception.Bus.{is_anonymous}
use dotty_stackchan.Greeter.Slots.{Log, Settings, time_of, slot_of, take_slot}
use dotty_stackchan.Greeter.Handler.{
  World, Push, request_of, or_unknown, greet, on_face_recognized, handle, pushed, run,
}
use dotty_stackchan.Greeter.Caps.{slot-take_slot, granted-take_slot, not-refuses}

abbrev drop_chars : ℕ → String → String
drop_chars zero s = s
drop_chars (suc n) String.[] = String.[]
drop_chars (suc n) (String.◌∷◌ c s) = drop_chars n s

request_of-injective : (a b : String) → request_of a ≡ request_of b → a ≡ b
unfolding append
request_of-injective a b h = ap (drop_chars 5) h

-- Whether a push greets the identity.
abbrev pub is_for : String → Push → Bool
is_for who p = p.request_text == request_of who

abbrev count_for : String → Option Push → ℕ
count_for who none = 0
count_for who (some p) = if is_for who p then 1 else 0

-- All events are handled on one date.
abbrev pub OnDay : String → List (World × Event) → Type 0
OnDay today [] = Unit
OnDay today ((w, e) ∷ es) = (w.today ≡ today) × OnDay today es

module _ (s : Settings) (who : String) where
  abbrev greeted : String → Log → ℕ
  greeted today log = (slot_of today who log).count

  greeted-take_slot :
      (i today : String) (ts : Option ℕ) (clock : ℕ) (log : Log)
      → greeted today log ≤ s.per_day_max
      → (greeted today (take_slot s i ts clock today log).0 ≤ s.per_day_max)
        × (greeted today (take_slot s i ts clock today log).0 ≡ (
            if (take_slot s i ts clock today log).1 && i == who
            then greeted today log + 1
            else greeted today log))
  greeted-take_slot i today ts clock log h = ground (
    arith,
    slot-take_slot s today i who ts clock log,
    granted-take_slot s today i ts clock log,
    not-refuses s (slot_of today i log) (time_of ts clock),
    eq_iff i who,
  )

  -- A step of the handler stays within the cap and counts what it sends.
  abbrev Counts : String → Log → Log × Option Push → Type 0
  Counts today log (log', push) =
      (greeted today log' ≤ s.per_day_max)
      × (count_for who push + greeted today log ≤ greeted today log')

  Counts-if :
      (today : String) (log : Log) (b : Bool) (x y : Log × Option Push)
      → Counts today log x
      → Counts today log y
      → Counts today log (if b then x else y)
  Counts-if today log true x y hx hy = hx
  Counts-if today log false x y hx hy = hy

  greet-Counts :
      (w : World) (e : Event) (i : String) (log : Log)
      → greeted w.today log ≤ s.per_day_max
      → Counts w.today log (greet s w e i log)
  unfolding greet
  greet-Counts w e i log h = ground (
    arith,
    greeted-take_slot i w.today (some e.ts) w.clock log h,
    eq_iff (request_of i) (request_of who),
    eq_iff i who,
    request_of-injective i who,
  )

  on_face_recognized-Counts :
      (w : World) (e : Event) (log : Log)
      → greeted w.today log ≤ s.per_day_max
      → Counts w.today log (on_face_recognized s w e log)
  unfolding on_face_recognized
  on_face_recognized-Counts w e log h =
      Counts-if w.today log (is_anonymous e.device_id) _ _ (h, omega arith)
        (named (stripped_text (lookup "identity" e.payload)))
    where
      named :
          (o : Option String)
          → Counts w.today log (elim o [
            | none ↦ (log, none)
            | some identity ↦ greet s w e (or_unknown identity) log
          ])
      named none = (h, omega arith)
      named (some identity) = greet-Counts w e (or_unknown identity) log h

  handle-Counts :
      (w : World) (e : Event) (log : Log)
      → greeted w.today log ≤ s.per_day_max
      → Counts w.today log (handle s w e log)
  unfolding handle
  handle-Counts w e log h =
      Counts-if w.today log (e.name == "face_recognized") _ _ (on_face_recognized-Counts w e log h)
        (Counts-if w.today log (e.name == "face_detected" && s.use_face_detected) _ _
          (on_face_recognized-Counts w _ log h) (h, omega arith))

  length-keep-pushed :
      (push : Option Push) (ps : List Push)
      → length (keep (is_for who) (pushed push ps))
        ≡ count_for who push + length (keep (is_for who) ps)
  length-keep-pushed none ps = omega arith
  length-keep-pushed (some p) ps = ground arith

  run_bound :
      (today : String) (es : List (World × Event)) (log : Log)
      → OnDay today es
      → greeted today log ≤ s.per_day_max
      → length (keep (is_for who) (run s es log).1) + greeted today log ≤ s.per_day_max
  unfolding run
  run_bound today [] log days h = omega arith
  run_bound today ((w, e) ∷ es) log days h =
      let (fits, counted) =
        subst (λ d. Counts d log (handle s w e log)) days.0
          (handle-Counts w e log (subst (λ d. greeted d log ≤ s.per_day_max) (sym days.0) h)) in
      rw length-keep-pushed (omega (arith, run_bound today es (handle s w e log).0 days.1 fits))

-- Whatever the events, their order and their worlds, on one date the handler sends an identity at
-- most `per_day_max` greetings, from a log that has counted no more than that for it.
pub run-capped :
    (s : Settings) (who today : String) (es : List (World × Event)) (log : Log)
    → OnDay today es
    → (slot_of today who log).count ≤ s.per_day_max
    → length (keep (is_for who) (run s es log).1) + (slot_of today who log).count ≤ s.per_day_max
run-capped s who today es log days h = run_bound s who today es log days h
