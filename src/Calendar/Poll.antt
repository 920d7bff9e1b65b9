-- ===== src/Calendar/Poll.antt =====
-- dotty-behaviour/calendar_/poll.py.
use dotty_stackchan.Prelude.{
  ℕ, zero, suc, ◌+◌, ◌-◌, min, String, Bool, not, ◌||◌, Option, none, some, List, [], ◌∷◌, ◌==◌,
  ltb, nat_eq, if◌then◌else◌,
}
use dotty_stackchan.Calendar.Cache.{
  CalendarEvent, CalendarCache, set_events, flush_for_new_day, set_weather,
}

pub record PollSettings : Type 0 where
  pub weather_ttl_sec : ℕ
  pub has_calendars : Bool
  pub calendar_ttl_sec : ℕ
  pub base_interval_sec : ℕ

-- What one round of the loop meets: the clock, the date, and what the fetches give, `none` for one
-- that raises.
pub record Round : Type 0 where
  pub now : ℕ
  pub today : String
  pub weather : String
  pub fetched : Option (List CalendarEvent)

abbrev pub take_fetch : Option (List CalendarEvent) → String → ℕ → CalendarCache → CalendarCache
take_fetch none today now c = record c { calendar_failures = c.calendar_failures + 1 }
take_fetch (some events) today now c = set_events events today now c

unfoldable pub refresh_weather : PollSettings → Round → CalendarCache → CalendarCache
unfolding set_weather
refresh_weather p r c =
    if ltb (c.weather_fetched_perf + p.weather_ttl_sec) r.now
    then set_weather r.weather r.now c
    else c

unfoldable pub refresh_calendar : PollSettings → Round → CalendarCache → CalendarCache
refresh_calendar p r c =
    let date_rolled = not (c.calendar_date == r.today) in
    let ttl_expired = ltb (c.calendar_fetched_perf + p.calendar_ttl_sec) r.now in
    let c' = if date_rolled then flush_for_new_day r.today c else c in
    if date_rolled || ttl_expired then take_fetch r.fetched r.today r.now c' else c'

unfoldable pub refresh_if_stale : PollSettings → Round → CalendarCache → CalendarCache
refresh_if_stale p r c =
    let c' = refresh_weather p r c in if p.has_calendars then refresh_calendar p r c' else c'

unfoldable pub poll : PollSettings → List Round → CalendarCache → CalendarCache
poll p [] c = c
poll p (r ∷ rs) c = poll p rs (refresh_if_stale p r c)

-- `BACKOFF_SCHEDULE_SEC[idx]`
abbrev pub backoff_at : ℕ → ℕ
backoff_at zero = 60
backoff_at (suc zero) = 120
backoff_at (suc (suc zero)) = 300
backoff_at (suc (suc (suc n))) = 600

unfoldable pub sleep_seconds : PollSettings → CalendarCache → ℕ
sleep_seconds p c =
    if nat_eq c.calendar_failures 0
    then p.base_interval_sec
    else backoff_at (min (c.calendar_failures - 1) 3)
