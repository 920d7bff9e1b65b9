-- ===== src/Tests/Dreams.antt =====
-- Runs of the consumers that ask the narrative model.
use dotty_stackchan.Prelude.{
  String, ◌≡◌, refl, true, false, some, [], ◌∷◌, map, strip, to_lower, lstrip, rstrip, pos, append,
  join, after_prefix,
}
use dotty_stackchan.Dict.{lookup, insert, remove}
use dotty_stackchan.Perception.Types.{Event, text, num}
use dotty_stackchan.Perception.Update.{stripped_text}
use dotty_stackchan.Consumers.Dreams.{
  DreamSettings, SleepDreamer, dream_on, on_sleep_state, schedule, dreams_from, split_dream_text,
  last_summary, after_colon, on_dance_ended, dance_of,
}

abbrev settings : DreamSettings
settings = record { window_seconds = 400; count_per_night = 3 }

abbrev event : String → String → String → Event
event name key value = record {
  device_id = "hall";
  name = name;
  payload = (key, text value) ∷ [];
  ts = 3;
}

abbrev awake : SleepDreamer
awake = record { alive = true; pending = [] }

abbrev asleep : SleepDreamer
asleep = dream_on settings (λ i. "the sea") (event "state_changed" "state" "sleep") awake

three_dreams :
    map (λ entry. map (λ d. d.delay) entry.1) asleep.pending ≡ (100 ∷ 200 ∷ 300 ∷ []) ∷ []
unfolding dream_on on_sleep_state schedule dreams_from stripped_text lookup insert remove strip
    to_lower
three_dreams = refl

no_dreams : (dream_on settings (λ i. "") (event "state_changed" "state" "idle") asleep).pending ≡ []
unfolding dream_on on_sleep_state schedule dreams_from stripped_text lookup insert remove strip
    to_lower
no_dreams = refl

told_dream :
    split_dream_text (λ s. "Waves." ∷ "Summary: I swam." ∷ []) "Waves.\nSummary: I swam."
    ≡ ("Waves.", some "I swam.")
unfolding split_dream_text last_summary after_colon join append strip lstrip rstrip to_lower
    after_prefix
told_dream = refl

-- A dance that is no text ends the reflector.
no_reflector :
    (on_dance_ended
      (record (event "dance_ended" "dance" "") { payload = ("dance", num (pos 3)) ∷ [] })
      (record { alive = true; tasks = [] })).alive
    ≡ false
unfolding on_dance_ended dance_of stripped_text lookup
no_reflector = refl
