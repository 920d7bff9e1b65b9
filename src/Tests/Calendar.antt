-- ===== src/Tests/Calendar.antt =====
-- Runs of the calendar, and its theorems at concrete inputs.
use dotty_stackchan.Prelude.{
  ℕ, String, ◌≡◌, refl, true, Option, none, some, List, [], ◌∷◌, strip, to_lower, append, concat,
  join, words,
}
use dotty_stackchan.Dict.{lookup, get_or, insert}
use dotty_stackchan.Calendar.Cache.{
  CalendarEvent, CalendarCache, new_cache, Request, summarize_for_prompt, concerns, line_of,
  fold_person_tag, bucket_by_person, bucket_onto, put_event, set_events, flush_for_new_day,
  set_weather,
}
use dotty_stackchan.Calendar.Poll.{
  PollSettings, Round, refresh_if_stale, refresh_weather, refresh_calendar, poll,
}
use dotty_stackchan.Calendar.Days.{AreOf, reverse_onto, poll-AreOf}

abbrev planned : String → String → CalendarEvent
planned person summary = record {
  person = person;
  time = "10:00";
  summary = summary;
  start_iso = "2026-01-02T10:00";
  calendar_id = "home";
}

abbrev plans : List CalendarEvent
plans =
    planned "Hudson" "piano  lesson" ∷ planned "Maya" "dentist" ∷ planned "_household" "dinner" ∷ []

abbrev for_hudson : Request
for_hudson = record {
  wanted = some ("hudson " ∷ []);
  include_household = true;
  household_bucket = "_household";
  scrub = λ s. s;
}

hudsons_day : summarize_for_prompt for_hudson plans ≡ "10:00 piano lesson" ∷ "10:00 dinner" ∷ []
unfolding summarize_for_prompt concerns line_of fold_person_tag to_lower words join append concat
    strip
hudsons_day = refl

abbrev poll_settings : PollSettings
poll_settings = record {
  weather_ttl_sec = 1800;
  has_calendars = true;
  calendar_ttl_sec = 900;
  base_interval_sec = 60;
}

abbrev round : ℕ → String → Option (List CalendarEvent) → Round
round now today fetched = record { now = now; today = today; weather = ""; fetched = fetched }

-- The fetch of the new day fails, so that the cache is empty, and waits longer.
abbrev new_day : CalendarCache
new_day =
    refresh_if_stale poll_settings (round 1100 "2026-01-03" none)
      (poll poll_settings (round 1000 "2026-01-02" (some plans) ∷ []) new_cache)

nothing_shown : new_day.events ≡ []
unfolding refresh_if_stale refresh_weather refresh_calendar poll set_events flush_for_new_day
    bucket_onto put_event get_or insert lookup set_weather
nothing_shown = refl

-- The round after it comes within the life of yesterday's fetch, and does not fetch.
nothing_fetched :
    (refresh_if_stale poll_settings (round 1160 "2026-01-03" (some plans)) new_day).events ≡ []
unfolding refresh_if_stale refresh_weather refresh_calendar poll set_events flush_for_new_day
    bucket_onto put_event get_or insert lookup set_weather
nothing_fetched = refl

poll-AreOf_example :
    AreOf "2026-01-03" new_day.events
      (round 1100 "2026-01-03" none ∷ reverse_onto [] (round 1000 "2026-01-02" (some plans) ∷ []))
    × (new_day.by_person ≡ bucket_by_person new_day.events)
poll-AreOf_example =
    poll-AreOf poll_settings (round 1000 "2026-01-02" (some plans) ∷ [])
      (round 1100 "2026-01-03" none) refl

abbrev failing : ℕ → CalendarCache
failing n = record new_cache { calendar_failures = n }
