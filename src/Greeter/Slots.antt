-- ===== src/Greeter/Slots.antt =====
-- The cooldown and the daily cap of dotty-behaviour/greeter/greeter.py (`_take_slot`).
use dotty_stackchan.Prelude.{
  ◌||◌, ℕ, ◌+◌, String, Bool, true, false, ◌&&◌, Option, none, some, [], ◌∷◌, ltb, leb, nat_eq,
  if◌then◌else◌,
}
use dotty_stackchan.Dict.{Dict, get_or, insert, has_key}

pub record Slot : Type 0 where
  pub count : ℕ
  pub last_ts : ℕ

abbrev pub no_slot : Slot
no_slot = record { count = 0; last_ts = 0 }

-- `{date: {identity: slot}}`
abbrev pub Log : Type 0
Log = Dict (Dict Slot)

pub record Settings : Type 0 where
  pub use_face_detected : Bool
  pub greet_unknown : Bool
  pub cooldown_seconds : ℕ
  pub per_day_max : ℕ

-- `float(event_ts) if event_ts else self._clock()`
abbrev pub time_of : Option ℕ → ℕ → ℕ
time_of none clock = clock
time_of (some t) clock = if nat_eq t 0 then clock else t

-- The log once old days are dropped and today's bucket is there.
unfoldable pub open_day : String → Log → Log
open_day today log =
    let kept = if has_key today log then log else (today, get_or today [] log) ∷ [] in
    insert today (get_or today [] kept) kept

abbrev pub slot_of : String → String → Log → Slot
slot_of today identity log = get_or identity no_slot (get_or today [] log)

-- The two tests of `_take_slot` that refuse: the cap of the day, and the cooldown.
unfoldable pub refuses : Settings → Slot → ℕ → Bool
refuses s slot now =
    leb s.per_day_max slot.count
    || ltb 0 slot.last_ts && ltb now (slot.last_ts + s.cooldown_seconds)

-- `_take_slot`: whether the identity may be greeted, and the log with the greeting counted.
unfoldable pub take_slot : Settings → String → Option ℕ → ℕ → String → Log → Log × Bool
take_slot s identity event_ts clock today log =
    let now = time_of event_ts clock in
    let opened = open_day today log in
    let slot = slot_of today identity opened in
    if refuses s slot now then (opened, false) else (
      insert today
          (insert identity (record { count = slot.count + 1; last_ts = now })
            (get_or today [] opened))
          opened,
      true,
    )
