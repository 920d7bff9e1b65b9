-- ===== src/Household/Birthday.antt =====
-- `Person.days_until_birthday` of dotty-behaviour/household/registry.py, with the calendar of
-- Python's `datetime.date`.
use dotty_stackchan.Prelude.{
  ℕ, ◌+◌, ◌-◌, ◌*◌, Bool, not, ◌&&◌, ◌||◌, Option, none, some, ltb, leb, nat_eq, if◌then◌else◌,
}
use Prim.Native.Nat.{◌/◌, ◌%◌}
use dotty_stackchan.Household.Value.{Date}
use dotty_stackchan.Household.Person.{Person, Birthdate, on_day, at_moment}

unfoldable pub is_leap : ℕ → Bool
is_leap y = nat_eq (y % 4) 0 && (not (nat_eq (y % 100) 0) || nat_eq (y % 400) 0)

abbrev pub leap_day : ℕ → ℕ
leap_day y = if is_leap y then 1 else 0

-- The days of all years before a year from 1.
unfoldable pub days_before_year : ℕ → ℕ
days_before_year y = let p = y - 1 in p * 365 + p / 4 + p / 400 - p / 100

-- The days of the months before the given one, in a year that is no leap year.
unfoldable pub days_before_month : ℕ → ℕ
days_before_month m =
    if leb m 1
    then 0
    else if leb m 2
    then 31
    else if leb m 3
    then 59
    else if leb m 4
    then 90
    else if leb m 5
    then 120
    else if leb m 6
    then 151
    else if leb m 7
    then 181
    else if leb m 8
    then 212
    else if leb m 9
    then 243
    else if leb m 10
    then 273
    else if leb m 11
    then 304
    else 334

-- `date.toordinal`
unfoldable pub ordinal : Date → ℕ
unfolding days_before_year days_before_month is_leap
ordinal d =
    days_before_year d.year
    + days_before_month d.month
    + (if ltb 2 d.month then leap_day d.year else 0)
    + d.day

-- Whether `d.replace(year=y)` raises.
abbrev pub lacks_day : Date → ℕ → Bool
lacks_day d y = nat_eq d.month 2 && nat_eq d.day 29 && not (is_leap y)

abbrev pub moved : Date → ℕ → Date
moved d y = record d { year = y }

abbrev pub on_28 : Date → ℕ → Date
on_28 d y = record { year = y; month = d.month; day = 28 }

-- The birthday of a year: of the kind of the birthdate where `replace` gives it, else a `date`.
unfoldable pub birthday_in : Birthdate → ℕ → Birthdate
unfolding is_leap
birthday_in (on_day d) y = on_day (if lacks_day d y then on_28 d y else moved d y)
birthday_in (at_moment d) y = if lacks_day d y then on_day (on_28 d y) else at_moment (moved d y)

-- `(next_year - ref).days`; `none` is the exception of a `datetime` less a `date`.
unfoldable pub days_to : Date → Birthdate → Option (Option ℕ)
unfolding ordinal
days_to today (on_day d) = some (some (ordinal d - ordinal today))
days_to today (at_moment d) = none

unfoldable pub first_of : Date → Birthdate → Birthdate → Option (Option ℕ)
unfolding days_to
first_of today (on_day d) next =
    if leb (ordinal today) (ordinal d) then days_to today (on_day d) else days_to today next
first_of today (at_moment d) next = none

-- `days_until_birthday`; the outer `none` is an exception.
unfoldable pub days_until_birthday : Date → Person → Option (Option ℕ)
unfolding first_of birthday_in
days_until_birthday today p = elim p.birthdate [
  | none ↦ some none
  | some b ↦ first_of today (birthday_in b today.year) (birthday_in b (today.year + 1))
]
