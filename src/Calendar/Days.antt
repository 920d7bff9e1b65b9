-- ===== src/Calendar/Days.antt =====
-- That the calendar never shows the events of another day.
use dotty_stackchan.Prelude.{
  ℕ, ◌+◌, String, ◌≡◌, refl, sym, ◌⊎◌, inl, inr, true, not, Option, none, some, List, [], ◌∷◌,
  arith, ◌==◌, eq_iff, ltb, if◌then◌else◌,
}
use mathlib.Core.Path.{subst}
use dotty_stackchan.Prelude.{if_cases}
use dotty_stackchan.Calendar.Cache.{
  bucket_onto, CalendarEvent, CalendarCache, new_cache, set_events, flush_for_new_day, set_weather,
  bucket_by_person,
}
use dotty_stackchan.Calendar.Poll.{
  PollSettings, Round, take_fetch, refresh_weather, refresh_calendar, refresh_if_stale, poll,
}

-- The rounds, the newest first, before those that are given.
abbrev pub reverse_onto : List Round → List Round → List Round
reverse_onto before [] = before
reverse_onto before (r ∷ rs) = reverse_onto (r ∷ before) rs

-- The events were fetched in a round of the given day, or there are none.
abbrev pub AreOf : String → List CalendarEvent → List Round → Type 0
AreOf day events [] = events ≡ []
AreOf day events (r ∷ rs) = ((r.today ≡ day) × (r.fetched ≡ some events)) ⊎ AreOf day events rs

AreOf-none : (day : String) (rs : List Round) → AreOf day [] rs
AreOf-none day [] = refl
AreOf-none day (r ∷ rs) = inr (AreOf-none day rs)

-- The events are of the date of the cache, from the rounds so far, the newest first.
abbrev pub IsToday : List Round → CalendarCache → Type 0
IsToday rs c = AreOf c.calendar_date c.events rs × (c.by_person ≡ bucket_by_person c.events)

IsToday-refresh_weather :
    (p : PollSettings) (r : Round) (rs : List Round) (c : CalendarCache)
    → IsToday rs c
    → IsToday rs (refresh_weather p r c)
unfolding refresh_weather set_weather
IsToday-refresh_weather p r rs c h =
    if_cases (IsToday rs) (ltb (c.weather_fetched_perf + p.weather_ttl_sec) r.now)
      (set_weather r.weather r.now c) c (λ _. h) (λ _. h)

IsToday-take_fetch :
    (r : Round) (rs : List Round) (fetched : Option (List CalendarEvent)) (now : ℕ)
    (c : CalendarCache)
    → fetched ≡ r.fetched
    → IsToday rs c
    → IsToday (r ∷ rs) (take_fetch fetched r.today now c)
unfolding set_events
IsToday-take_fetch r rs none now c e h = (inr h.0, h.1)
IsToday-take_fetch r rs (some events) now c e h = (inl (refl, sym e), refl)

IsToday-none :
    (rs : List Round) (date : String) (c : CalendarCache) → IsToday rs (flush_for_new_day date c)
unfolding flush_for_new_day bucket_onto
IsToday-none rs date c = (AreOf-none date rs, refl)

IsToday-older :
    (r : Round) (rs : List Round) (c : CalendarCache) → IsToday rs c → IsToday (r ∷ rs) c
IsToday-older r rs c h = (inr h.0, h.1)

IsToday-refresh_calendar :
    (p : PollSettings) (r : Round) (rs : List Round) (c : CalendarCache)
    → IsToday rs c
    → IsToday (r ∷ rs) (refresh_calendar p r c)
unfolding refresh_calendar
IsToday-refresh_calendar p r rs c h =
    if_cases (IsToday (r ∷ rs)) _ (take_fetch r.fetched r.today r.now flushed) flushed
      (λ _. IsToday-take_fetch r rs r.fetched r.now flushed refl flushed-IsToday)
      (λ _. IsToday-older r rs flushed flushed-IsToday)
  where
    flushed : CalendarCache
    flushed = if not (c.calendar_date == r.today) then flush_for_new_day r.today c else c

    flushed-IsToday : IsToday rs flushed
    flushed-IsToday =
        if_cases (IsToday rs) (not (c.calendar_date == r.today)) (flush_for_new_day r.today c) c
          (λ _. IsToday-none rs r.today c) (λ _. h)

IsToday-refresh_if_stale :
    (p : PollSettings) (r : Round) (rs : List Round) (c : CalendarCache)
    → IsToday rs c
    → IsToday (r ∷ rs) (refresh_if_stale p r c)
unfolding refresh_if_stale
IsToday-refresh_if_stale p r rs c h =
    if_cases (IsToday (r ∷ rs)) p.has_calendars (refresh_calendar p r (refresh_weather p r c))
      (refresh_weather p r c)
      (λ _.
        IsToday-refresh_calendar p r rs (refresh_weather p r c)
          (IsToday-refresh_weather p r rs c h))
      (λ _. IsToday-older r rs (refresh_weather p r c) (IsToday-refresh_weather p r rs c h))

IsToday-poll :
    (p : PollSettings) (rs before : List Round) (c : CalendarCache)
    → IsToday before c
    → IsToday (reverse_onto before rs) (poll p rs c)
unfolding poll
IsToday-poll p [] before c h = h
IsToday-poll p (r ∷ rs) before c h =
    IsToday-poll p rs (r ∷ before) (refresh_if_stale p r c)
      (IsToday-refresh_if_stale p r before c h)

calendar_date-take_fetch :
    (fetched : Option (List CalendarEvent)) (today : String) (now : ℕ) (c : CalendarCache)
    → c.calendar_date ≡ today
    → (take_fetch fetched today now c).calendar_date ≡ today
unfolding set_events
calendar_date-take_fetch none today now c h = h
calendar_date-take_fetch (some events) today now c h = refl

calendar_date-refresh_calendar :
    (p : PollSettings) (r : Round) (c : CalendarCache)
    → (refresh_calendar p r c).calendar_date ≡ r.today
unfolding refresh_calendar flush_for_new_day
calendar_date-refresh_calendar p r c =
    if_cases IsNow _ (take_fetch r.fetched r.today r.now flushed) flushed
      (λ _. calendar_date-take_fetch r.fetched r.today r.now flushed flushed-IsNow)
      (λ _. flushed-IsNow)
  where
    IsNow : CalendarCache → Type 0
    IsNow k = k.calendar_date ≡ r.today

    flushed : CalendarCache
    flushed = if not (c.calendar_date == r.today) then flush_for_new_day r.today c else c

    flushed-IsNow : IsNow flushed
    flushed-IsNow =
        if_cases IsNow (not (c.calendar_date == r.today)) (flush_for_new_day r.today c) c
          (λ _. refl) (λ same. ground (arith, eq_iff c.calendar_date r.today))

calendar_date-refresh_if_stale :
    (p : PollSettings) (r : Round) (c : CalendarCache)
    → p.has_calendars ≡ true
    → (refresh_if_stale p r c).calendar_date ≡ r.today
unfolding refresh_if_stale
calendar_date-refresh_if_stale p r c has =
    if_cases (λ k. k.calendar_date ≡ r.today) p.has_calendars
      (refresh_calendar p r (refresh_weather p r c)) (refresh_weather p r c)
      (λ _. calendar_date-refresh_calendar p r (refresh_weather p r c))
      (λ hasnt. absurd (ground arith))

-- Where calendars are configured, after any rounds and one more, whichever fetches fail, the events
-- of the cache were fetched in a round of the last round's day, or there are none; and the buckets
-- are those of the events.
pub poll-AreOf :
    (p : PollSettings) (rs : List Round) (r : Round)
    → p.has_calendars ≡ true
    → AreOf r.today (refresh_if_stale p r (poll p rs new_cache)).events (r ∷ reverse_onto [] rs)
      × ((refresh_if_stale p r (poll p rs new_cache)).by_person
          ≡ bucket_by_person (refresh_if_stale p r (poll p rs new_cache)).events)
unfolding bucket_onto
poll-AreOf p rs r has =
    let c = poll p rs new_cache in
    let h =
      IsToday-refresh_if_stale p r (reverse_onto [] rs) c
        (IsToday-poll p rs [] new_cache (refl, refl)) in
    (
      subst (λ day. AreOf day (refresh_if_stale p r c).events (r ∷ reverse_onto [] rs))
          (calendar_date-refresh_if_stale p r c has) h.0,
      h.1,
    )
