-- ===== src/Consumers/Dreams.antt =====
-- The consumers that ask the narrative model: dotty-behaviour/consumers/sleep_dreamer.py and
-- dance_reflector.py. A task that waits is what it will do.
use dotty_stackchan.Prelude.{
  ℕ, zero, suc, ◌+◌, ◌*◌, code, String, Bool, false, not, ◌&&◌, Option, none, some, List, [], ◌∷◌,
  ◌++◌, ◌==◌, nat_eq, if◌then◌else◌, is_blank, strip, to_lower, rstrip, join, starts_with,
}
use dotty_stackchan.Dict.{Dict, lookup, insert, remove}
use Prim.Native.Nat.{◌/◌}
use dotty_stackchan.Perception.Types.{Event, Value}
use dotty_stackchan.Perception.Update.{stripped_text}

-- A dream that is scheduled: its delay, in whole ticks, and its seed.
pub record Dream : Type 0 where
  pub delay : ℕ
  pub seed : String

pub record DreamSettings : Type 0 where
  pub window_seconds : ℕ
  pub count_per_night : ℕ

pub record SleepDreamer : Type 0 where
  pub alive : Bool
  pub pending : Dict (List Dream)

-- The dreams from the i-th on, where the i-th seed is chosen by `choose i`.
unfoldable pub dreams_from : DreamSettings → (ℕ → String) → ℕ → ℕ → List Dream
dreams_from c choose i zero = []
dreams_from c choose i (suc n) =
    record { delay = c.window_seconds * i / (c.count_per_night + 1); seed = choose i }
    ∷ dreams_from c choose (i + 1) n

-- `_schedule`, which cancels what is pending first.
unfoldable pub schedule :
    DreamSettings → (ℕ → String) → String → Dict (List Dream) → Dict (List Dream)
schedule c choose id pending =
    let cancelled = remove id pending in
    if nat_eq c.count_per_night 0
    then cancelled
    else insert id (dreams_from c choose 1 c.count_per_night) cancelled

unfoldable pub on_sleep_state :
    DreamSettings → (ℕ → String) → Option String → String → SleepDreamer → SleepDreamer
on_sleep_state c choose none id d = record d { alive = false }
on_sleep_state c choose (some new_state) id d = record d {
  pending =
      if to_lower new_state == "sleep" then schedule c choose id d.pending else remove id d.pending;
}

-- One event in `SleepDreamer.run`; a state that is no text ends it, and leaves what is pending.
unfoldable pub dream_on : DreamSettings → (ℕ → String) → Event → SleepDreamer → SleepDreamer
dream_on c choose e d =
    if d.alive && e.name == "state_changed" && not (is_blank e.device_id)
    then on_sleep_state c choose (stripped_text (lookup "state" e.payload)) e.device_id d
    else d

abbrev is_summary : String → Bool
is_summary line = starts_with "summary:" (to_lower (strip line))

-- What stands after the first colon.
unfoldable pub after_colon : String → String
after_colon String.[] = String.[]
after_colon (String.◌∷◌ c s) = if nat_eq (code c) 58 then s else after_colon s

-- The lines before the last summary, and the summary.
unfoldable pub last_summary : List String → Option (List String × String)
last_summary [] = none
last_summary (line ∷ lines) = elim (last_summary lines) [
  | some (before, summary) ↦ some (line ∷ before, summary)
  | none ↦ if is_summary line then some ([], strip (after_colon (strip line))) else none
]

-- `split_dream_text`, for what `str.splitlines` gives of the text.
unfoldable pub split_dream_text : (String → List String) → String → String × Option String
split_dream_text splitlines raw =
    let text = rstrip raw in
    if is_blank raw then ("", none) else elim (last_summary (splitlines text)) [
      | none ↦ (text, none)
      | some (lines, summary) ↦
          (rstrip (join "\n" lines), if is_blank summary then none else some summary)
    ]

-- A record of the log.
pub record Reflection : Type 0 where
  pub device : String
  pub about : String
  pub summary : String
  pub full_text : String

abbrev or_empty : Option String → String
or_empty none = ""
or_empty (some s) = s

-- `_fire_one`: what it writes, if the model answers.
unfoldable pub fire_one : (String → List String) → String → String → Option String → List Reflection
fire_one splitlines id seed none = []
fire_one splitlines id seed (some raw) =
    let d = split_dream_text splitlines raw in
    if is_blank raw
    then []
    else record { device = id; about = seed; summary = or_empty d.1; full_text = d.0 } ∷ []

abbrev or_the_dance : String → String
or_the_dance s = if is_blank s then "the dance" else s

-- The dance of an event; `none` is the exception of a value that is no text.
unfoldable pub dance_of : Option Value → Option String
dance_of dance = elim (stripped_text dance) [ none ↦ none | some s ↦ some (or_the_dance s) ]

pub record DanceReflector : Type 0 where
  pub alive : Bool
  pub tasks : List (String × String)

abbrev reflect_on : String → Option String → DanceReflector → DanceReflector
reflect_on id none d = record d { alive = false }
reflect_on id (some dance) d = record d { tasks = d.tasks ++ (id, dance) ∷ [] }

-- One event in `DanceReflector.run`.
unfoldable pub on_dance_ended : Event → DanceReflector → DanceReflector
on_dance_ended e d =
    if d.alive && e.name == "dance_ended" && not (is_blank e.device_id)
    then reflect_on e.device_id (dance_of (lookup "dance" e.payload)) d
    else d

-- `_fire`
unfoldable pub fire : String → String → Option String → List Reflection
fire id dance none = []
fire id dance (some reflection) =
    if is_blank reflection
    then []
    else record { device = id; about = dance; summary = ""; full_text = reflection } ∷ []
