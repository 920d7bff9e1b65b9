-- ===== src/Household/NextBirthday.antt =====
-- That the next birthday is the next one.
use dotty_stackchan.Prelude.{
  ℕ, zero, suc, ◌+◌, ◌-◌, ◌≤◌, ◌<◌, ◌≡◌, refl, inl, inr, Bool, true, false, ◌&&◌, ◌||◌, some, arith,
  ltb, leb, nat_eq, if◌then◌else◌, Bool-cases,
}
use mathlib.Core.Path.{subst}
use dotty_stackchan.Prelude.{if_cases}
use dotty_stackchan.Household.Value.{Date}
use dotty_stackchan.Household.Person.{Person, on_day}
use dotty_stackchan.Household.Birthday.{
  is_leap, leap_day, days_before_year, days_before_month, ordinal, lacks_day, moved, on_28,
  birthday_in, days_to, first_of, days_until_birthday,
}

days_before_year-suc :
    (y : ℕ) → 1 ≤ y → days_before_year (y + 1) ≡ days_before_year y + 365 + leap_day y
unfolding days_before_year is_leap
days_before_year-suc y h = ground arith

abbrev pub birthday : Date → ℕ → Date
birthday d y = if lacks_day d y then on_28 d y else moved d y

-- The days of a birthday within its year, but for the leap day.
abbrev day_of : Date → ℕ
day_of d = days_before_month d.month + (if nat_eq d.month 2 && nat_eq d.day 29 then 28 else d.day)

abbrev is_late : Date → Bool
is_late d = ltb 2 d.month || nat_eq d.month 2 && nat_eq d.day 29

ordinal-birthday :
    (d : Date) (y : ℕ)
    → ordinal (birthday d y) ≡ days_before_year y + day_of d + (if is_late d then leap_day y else 0)
unfolding ordinal
ordinal-birthday d y = elim (Bool-cases (nat_eq d.month 2 && nat_eq d.day 29)) [
  | inl leap ↦ elim (Bool-cases (is_leap y)) [
    | inl has ↦ ground (arith, leap, has)
    | inr lacks ↦ ground (arith, leap, lacks)
  ]
  | inr other ↦ ground (arith, other)
]

leap_apart : (y : ℕ) → is_leap y && is_leap (y + 1) ≡ false
unfolding is_leap
leap_apart y = ground arith

-- From one birthday to the next there are 365 or 366 days.
birthday_gap :
    (d : Date) (y : ℕ)
    → 1 ≤ y
    → (ordinal (birthday d y) + 365 ≤ ordinal (birthday d (y + 1)))
      × (ordinal (birthday d (y + 1)) ≤ ordinal (birthday d y) + 366)
birthday_gap d y h = gap (ordinal-birthday d y) (ordinal-birthday d (y + 1))
  where
    gap :
        {m n : ℕ}
        → m ≡ days_before_year y + day_of d + (if is_late d then leap_day y else 0)
        → n ≡ days_before_year (y + 1) + day_of d + (if is_late d then leap_day (y + 1) else 0)
        → (m + 365 ≤ n) × (n ≤ m + 366)
    gap p q = (
      ground (arith, p, q, days_before_year-suc y h, leap_apart y),
      ground (arith, p, q, days_before_year-suc y h, leap_apart y),
    )

birthday_later :
    (d : Date) (y k : ℕ) → 1 ≤ y → ordinal (birthday d y) ≤ ordinal (birthday d (y + k))
birthday_later d y zero h =
    let same : y ≡ y + 0 = omega arith in
    subst (λ z. ordinal (birthday d y) ≤ ordinal (birthday d z)) same (omega arith)
birthday_later d y (suc k) h =
    let next : y + k + 1 ≡ y + suc k = omega arith in
    let before = birthday_later d y k h in
    let gap = birthday_gap d (y + k) (omega (arith, h)) in
    subst (λ z. ordinal (birthday d y) ≤ ordinal (birthday d z)) next (omega (arith, before, gap.0))

-- Some birthday from the given year on is `n` days off, within a year, and none is nearer.
pub record IsNext (born today : Date) (n : ℕ) : Type 0 where
  pub there : (k : ℕ) × (ordinal today + n ≡ ordinal (birthday born (today.year + k)))
  pub within : n ≤ 365
  pub first :
      (k : ℕ)
      → ordinal today ≤ ordinal (birthday born (today.year + k))
      → ordinal today + n ≤ ordinal (birthday born (today.year + k))

-- The days to this year's birthday, or to that of the next year.
abbrev days_of : Date → Date → ℕ
days_of born today =
    if leb (ordinal today) (ordinal (birthday born today.year))
    then ordinal (birthday born today.year) - ordinal today
    else ordinal (birthday born (today.year + 1)) - ordinal today

days_until_birthday-days_of :
    (born today : Date) (p : Person)
    → p.birthdate ≡ some (on_day born)
    → days_until_birthday today p ≡ some (some (days_of born today))
unfolding days_until_birthday first_of days_to birthday_in
days_until_birthday-days_of born today p e =
    rw e (by_day (leb (ordinal today) (ordinal (birthday born today.year))) _ _)
  where
    by_day :
        (b : Bool) (m n : ℕ)
        → (if b then some (some m) else some (some n)) ≡ some (some (if b then m else n))
    by_day true m n = refl
    by_day false m n = refl

due_in_year :
    (born today : Date)
    → 1 ≤ today.year
    → ordinal today ≤ ordinal (birthday born today.year)
    → ordinal (birthday born today.year) ≤ ordinal today + 365
    → IsNext born today (ordinal (birthday born today.year) - ordinal today)
due_in_year born today h le near =
    let same : today.year ≡ today.year + 0 = omega arith in
    record {
      there = (
        0,
        subst
            (λ z.
              ordinal today + (ordinal (birthday born today.year) - ordinal today)
              ≡ ordinal (birthday born z))
            same (omega (arith, le)),
      );
      within = omega (arith, near);
      first = λ k later. omega (arith, le, birthday_later born today.year k h);
    }

due_after_year :
    (born today : Date)
    → 1 ≤ today.year
    → ordinal (birthday born today.year) < ordinal today
    → ordinal today ≤ ordinal (birthday born (today.year + 1))
    → IsNext born today (ordinal (birthday born (today.year + 1)) - ordinal today)
due_after_year born today h past le = record {
  there = (1, omega (arith, le));
  within = omega (arith, birthday_gap born today.year h, past);
  first = later;
}
  where
    later :
        (k : ℕ)
        → ordinal today ≤ ordinal (birthday born (today.year + k))
        → ordinal today + (ordinal (birthday born (today.year + 1)) - ordinal today)
          ≤ ordinal (birthday born (today.year + k))
    later zero e =
        let same : today.year + 0 ≡ today.year = omega arith in
        let now = subst (λ z. ordinal today ≤ ordinal (birthday born z)) same e in
        absurd (omega (arith, past, now))
    later (suc k) e =
        let next : today.year + 1 + k ≡ today.year + suc k = omega arith in
        let after =
          subst (λ z. ordinal (birthday born (today.year + 1)) ≤ ordinal (birthday born z)) next
            (birthday_later born (today.year + 1) k (omega arith)) in
        omega (arith, le, after)

-- What every date satisfies.
pub record IsDate (d : Date) : Type 0 where
  pub year : 1 ≤ d.year
  pub day : 1 ≤ d.day
  pub within_month : d.day ≤ 31

days_before_month-le : (m : ℕ) → days_before_month m ≤ 334
unfolding days_before_month
days_before_month-le m = ground arith

ordinal_within :
    (d : Date)
    → IsDate d
    → (days_before_year d.year + 1 ≤ ordinal d)
      × (ordinal d ≤ days_before_year d.year + 365 + leap_day d.year)
unfolding ordinal
ordinal_within d h =
    (ground (arith, h.day), ground (arith, h.within_month, days_before_month-le d.month))

birthday_within :
    (d : Date) (y : ℕ)
    → IsDate d
    → (days_before_year y + 1 ≤ ordinal (birthday d y))
      × (ordinal (birthday d y) ≤ days_before_year y + 365 + leap_day y)
birthday_within d y h = (
  ground (arith, ordinal-birthday d y, h.day),
  ground (arith, ordinal-birthday d y, h.within_month, days_before_month-le d.month),
)

-- A member with a birthdate, not a `datetime`, is told on any day the number of days, at most 365, to
-- the nearest birthday that is not past; one born on a leap day has it on the 28th in other years.
pub days_until_birthday-IsNext :
    (born today : Date) (p : Person)
    → p.birthdate ≡ some (on_day born)
    → IsDate born
    → IsDate today
    → (n : ℕ) × (days_until_birthday today p ≡ some (some n)) × IsNext born today n
days_until_birthday-IsNext born today p e b t = (
  days_of born today,
  days_until_birthday-days_of born today p e,
  if_cases (IsNext born today) (leb (ordinal today) (ordinal (birthday born today.year))) _ _
      (λ le.
        due_in_year born today t.year (ground arith)
          (ground (arith, birthday_within born today.year b, ordinal_within today t)))
      (λ gt. due_after_year born today t.year (ground arith) (
        omega (
          arith,
          (birthday_within born (today.year + 1) b).0,
          (ordinal_within today t).1,
          days_before_year-suc today.year t.year,
        ))),
)
