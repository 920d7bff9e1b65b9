-- ===== src/Tests/Greeter.antt =====
-- Runs of the greeter, and its theorems at concrete inputs.
use dotty_stackchan.Prelude.{
  join, words, concat, after_prefix, ℕ, ◌+◌, ◌≤◌, ◌≡◌, refl, inl, false, none, some, List, [], ◌∷◌,
  arith, length, keep, strip, lstrip,
}
use dotty_stackchan.Dict.{lookup, get_or, insert, has_key}
use dotty_stackchan.Perception.Types.{Value, Event}
use dotty_stackchan.Perception.Update.{stripped_text}
use dotty_stackchan.Greeter.Slots.{Settings, slot_of, take_slot, refuses, open_day}
use dotty_stackchan.Greeter.Wording.{current_window, template_fallback, post_process, sandwich}
use dotty_stackchan.Greeter.Handler.{
  World, handle, on_face_recognized, greet, generate_greeting, request_of, run,
}
use dotty_stackchan.Greeter.Caps.{Attempt, grants, Spaced, grants-capped}
use dotty_stackchan.Greeter.Pushes.{is_for, run-capped}
use dotty_stackchan.Greeter.Fallback.{handle-fallback}

abbrev settings : Settings
settings = record {
  use_face_detected = false;
  greet_unknown = false;
  cooldown_seconds = 100;
  per_day_max = 2;
}

abbrev world : World
world = record {
  clock = 1000;
  today = "2026-01-01";
  hour = 9;
  kid_mode = none;
  reply = λ identity window. none;
  display_name = λ identity. some "Hudson";
}

abbrev seen_at : ℕ → Event
seen_at ts = record {
  device_id = "kitchen";
  name = "face_recognized";
  payload = ("identity", Value.text "hudson") ∷ [];
  ts = ts;
}

abbrev morning : List (World × Event)
morning =
    (world, seen_at 500) ∷ (world, seen_at 550) ∷ (world, seen_at 700) ∷ (world, seen_at 900) ∷ []

cleaned_reply : post_process "  'Good   morning'  " ≡ "Good morning"
unfolding post_process strip words join
cleaned_reply = refl

kid_strip : sandwich none "😊 Hi" ≡ "Hi"
unfolding sandwich after_prefix lstrip
kid_strip = refl

two_greetings : length (run settings morning []).1 ≡ 2
unfolding run handle on_face_recognized greet generate_greeting take_slot refuses open_day
    stripped_text strip lookup insert get_or has_key current_window template_fallback concat
    sandwich after_prefix
two_greetings = refl

abbrev attempts : List Attempt
attempts =
    record { identity = "hudson"; event_ts = some 500; clock = 0 }
    ∷ record { identity = "hudson"; event_ts = some 550; clock = 0 }
    ∷ record { identity = "hudson"; event_ts = none; clock = 700 }
    ∷ []

grants-capped_example :
    (length (grants settings "2026-01-01" "hudson" attempts []) ≤ 2)
    × Spaced 100 0 (grants settings "2026-01-01" "hudson" attempts [])
unfolding get_or lookup
grants-capped_example = grants-capped settings "2026-01-01" "hudson" attempts [] refl

run-capped_example :
    length (keep (is_for "hudson") (run settings morning []).1)
      + (slot_of "2026-01-01" "hudson" []).count
    ≤ 2
unfolding get_or lookup
run-capped_example =
    run-capped settings "hudson" "2026-01-01" morning [] (refl, (refl, (refl, (refl, tt))))
      (omega arith)

handle-fallback_example :
    (handle settings world (seen_at 500) []).1
    ≡ some (record {
      device_id = "kitchen";
      text = template_fallback (some "Hudson") "hudson" (current_window 9);
      request_text = request_of "hudson";
    })
unfolding take_slot refuses open_day stripped_text strip lookup insert get_or has_key
handle-fallback_example =
    handle-fallback settings world (seen_at 500) [] "hudson" refl refl refl refl refl (inl refl)
      refl
