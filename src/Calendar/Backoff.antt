-- ===== src/Calendar/Backoff.antt =====
-- The back-off of the poll loop of dotty-behaviour/calendar_/poll.py.
use dotty_stackchan.Prelude.{ℕ, ◌-◌, ◌≤◌, min, arith}
use dotty_stackchan.Calendar.Cache.{CalendarCache}
use dotty_stackchan.Calendar.Poll.{PollSettings, backoff_at, sleep_seconds}

backoff_at_lower : (n : ℕ) → 60 ≤ backoff_at n
backoff_at_lower n = ground arith

backoff_at_mono : (m n : ℕ) → m ≤ n → backoff_at m ≤ backoff_at n
backoff_at_mono m n h = ground arith

backoff_at_upper : (n : ℕ) → backoff_at n ≤ 600
backoff_at_upper n = ground arith

-- Where the base interval is at most 60 s, the loop sleeps at most 600 s, and never less after more
-- failures in a row.
sleep_seconds_mono :
    (p : PollSettings) (c d : CalendarCache)
    → p.base_interval_sec ≤ 60
    → c.calendar_failures ≤ d.calendar_failures
    → (sleep_seconds p c ≤ sleep_seconds p d) × (sleep_seconds p d ≤ 600)
unfolding sleep_seconds
sleep_seconds_mono p c d base more = (
  ground (
    arith,
    backoff_at_mono (min (c.calendar_failures - 1) 3) (min (d.calendar_failures - 1) 3)
        (omega arith),
    backoff_at_lower (min (d.calendar_failures - 1) 3),
  ),
  ground (arith, backoff_at_upper (min (d.calendar_failures - 1) 3)),
)
