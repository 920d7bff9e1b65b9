-- ===== src/Calendar/Cache.antt =====
-- dotty-behaviour/calendar_/cache.py.
use dotty_stackchan.Prelude.{
  ℕ, String, Bool, true, false, not, ◌&&◌, ◌||◌, Option, none, some, List, [], ◌∷◌, ◌++◌, ◌==◌,
  if◌then◌else◌, any, is_blank, strip, to_lower, append, concat, join, words,
}
use dotty_stackchan.Dict.{Dict, get_or, insert}

pub record CalendarEvent : Type 0 where
  pub person : String
  pub time : String
  pub summary : String
  pub start_iso : String
  pub calendar_id : String

pub record CalendarCache : Type 0 where
  pub weather_text : String
  pub weather_fetched_perf : ℕ
  pub events : List CalendarEvent
  pub by_person : Dict (List CalendarEvent)
  pub calendar_fetched_perf : ℕ
  pub calendar_date : String
  pub calendar_failures : ℕ

abbrev pub new_cache : CalendarCache
new_cache = record {
  weather_text = "";
  weather_fetched_perf = 0;
  events = [];
  by_person = [];
  calendar_fetched_perf = 0;
  calendar_date = "";
  calendar_failures = 0;
}

-- One turn of the loop: `out.setdefault(person, []).append(ev)`.
unfoldable pub put_event : CalendarEvent → Dict (List CalendarEvent) → Dict (List CalendarEvent)
put_event ev out = insert ev.person (get_or ev.person [] out ++ ev ∷ []) out

unfoldable pub bucket_onto :
    Dict (List CalendarEvent) → List CalendarEvent → Dict (List CalendarEvent)
bucket_onto out [] = out
bucket_onto out (ev ∷ evs) = bucket_onto (put_event ev out) evs

abbrev pub bucket_by_person : List CalendarEvent → Dict (List CalendarEvent)
bucket_by_person events = bucket_onto [] events

unfoldable pub set_events : List CalendarEvent → String → ℕ → CalendarCache → CalendarCache
set_events events date_str now_perf c = record c {
  events = events;
  by_person = bucket_by_person events;
  calendar_fetched_perf = now_perf;
  calendar_date = date_str;
  calendar_failures = 0;
}

unfoldable pub flush_for_new_day : String → CalendarCache → CalendarCache
flush_for_new_day date_str c = record c { events = []; by_person = []; calendar_date = date_str }

unfoldable pub set_weather : String → ℕ → CalendarCache → CalendarCache
set_weather text now_perf c = record c {
  weather_text = if is_blank text then c.weather_text else text;
  weather_fetched_perf = now_perf;
}

-- `_fold_person_tag`
unfoldable pub fold_person_tag : String → String
unfolding to_lower words join
fold_person_tag value = join " " (words (to_lower value))

-- What the caller asks for: the tags of a person, or `none` for everybody; `scrub` is the two
-- substitutions that take time stamps and addresses out of a summary.
pub record Request : Type 0 where
  pub wanted : Option (List String)
  pub include_household : Bool
  pub household_bucket : String
  pub scrub : String → String

abbrev is_tag : String → List String → Bool
is_tag tag tags = any (λ t. fold_person_tag t == tag) tags

-- Whether an event is of somebody that the caller asks for.
unfoldable pub concerns : Request → CalendarEvent → Bool
concerns r ev = elim r.wanted [
  | none ↦ true
  | some tags ↦
      is_tag (fold_person_tag ev.person) tags
      || r.include_household && ev.person == r.household_bucket
]

abbrev is_everybody : Request → Bool
is_everybody r = elim r.wanted [ none ↦ true | some tags ↦ false ]

unfoldable pub line_of : Request → CalendarEvent → Option String
unfolding words join append concat strip
line_of r ev =
    let clean_summary = join " " (words (r.scrub ev.summary)) in
    let tag =
      if not (ev.person == r.household_bucket) && is_everybody r
      then concat ("[" ∷ ev.person ∷ "] " ∷ [])
      else "" in
    if is_blank clean_summary
    then none
    else some (
        strip (
          if is_blank ev.time
          then append tag clean_summary
          else concat (ev.time ∷ " " ∷ tag ∷ clean_summary ∷ [])))

abbrev pub onto : Option String → List String → List String
onto none rest = rest
onto (some line) rest = line ∷ rest

-- `summarize_for_prompt`
unfoldable pub summarize_for_prompt : Request → List CalendarEvent → List String
summarize_for_prompt r [] = []
summarize_for_prompt r (ev ∷ evs) =
    let rest = summarize_for_prompt r evs in
    if concerns r ev then onto (line_of r ev) rest else rest
