-- ===== src/Consumers/Security.antt =====
-- The captures of a device in the security state: dotty-behaviour/consumers/security_cycle.py.
use dotty_stackchan.Prelude.{
  ℕ, String, Bool, true, false, not, ◌&&◌, Option, none, some, List, [], ◌∷◌, ◌++◌, map, reverse,
  ◌==◌, ltb, if◌then◌else◌, take, deque_append, is_blank, strip, to_lower,
}
use dotty_stackchan.Dict.{Dict, lookup, insert, remove}
use dotty_stackchan.Perception.Types.{Event, CacheEntry, or_zero}
use dotty_stackchan.Perception.Update.{stripped_text}
use dotty_stackchan.Perception.Bus.{is_anonymous}

-- The record of one cycle; `audio_classification` is always `None`.
pub record Cycle : Type 0 where
  pub ts : String
  pub device : String
  pub photo_desc : String
  pub audio_transcript : Option String
  pub errors : List String

-- A capture task is held by whether it is done. `alive` is that `run` still takes events.
pub record SecurityCycle : Type 0 where
  pub alive : Bool
  pub device_timers : Dict Bool
  pub recent_cycles : List Cycle

abbrev pub new_security_cycle : SecurityCycle
new_security_cycle = record { alive = true; device_timers = []; recent_cycles = [] }

abbrev pub is_running : String → Dict Bool → Bool
is_running id timers = elim (lookup id timers) [ none ↦ false | some done ↦ not done ]

-- `_start_device_timer`
unfoldable pub start_device_timer : String → Dict Bool → Dict Bool
unfolding lookup insert
start_device_timer id timers = if is_running id timers then timers else insert id false timers

-- `_stop_device_timer`: the timers, and whether one was cancelled.
unfoldable pub stop_device_timer : String → Dict Bool → Dict Bool × Bool
unfolding lookup remove
stop_device_timer id timers = (remove id timers, is_running id timers)

abbrev pub stop_each : List String → Dict Bool → Dict Bool
stop_each [] timers = timers
stop_each (id ∷ ids) timers = stop_each ids (stop_device_timer id timers).0

-- `_stop_all_timers`
unfoldable pub stop_all_timers : Dict Bool → Dict Bool
unfolding stop_device_timer
stop_all_timers timers = stop_each (map (λ entry. entry.0) timers) timers

-- The body of `run` for an event that has a device.
unfoldable pub change_watch : Option String → String → SecurityCycle → SecurityCycle
unfolding start_device_timer stop_device_timer stop_all_timers to_lower
change_watch none id w = record w { alive = false; device_timers = stop_all_timers w.device_timers }
change_watch (some new_state) id w = record w {
  device_timers =
      if to_lower new_state == "security"
      then start_device_timer id w.device_timers
      else (stop_device_timer id w.device_timers).0;
}

abbrev pub is_watched : Event → Bool
is_watched e = e.name == "state_changed" && not (is_anonymous e.device_id)

-- One event in `run`. A state that is no text raises, which stops all timers and ends `run`.
unfoldable pub on_state_changed : Event → SecurityCycle → SecurityCycle
unfolding change_watch stripped_text lookup
on_state_changed e w =
    if w.alive && is_watched e
    then change_watch (stripped_text (lookup "state" e.payload)) e.device_id w
    else w

unfoldable pub watch : List Event → SecurityCycle → SecurityCycle
unfolding on_state_changed
watch [] w = w
watch (e ∷ es) w = watch es (on_state_changed e w)

abbrev written_at : Option CacheEntry → ℕ
written_at none = 0
written_at (some entry) = or_zero entry.wall_ts

unfoldable pub described : Option CacheEntry → String
unfolding strip
described none = ""
described (some entry) = elim entry.description [ none ↦ "" | some s ↦ strip s ]

-- `_wait_for_fresh_vision` and `_wait_for_fresh_audio`, given what the cache holds at each look before
-- the deadline.
unfoldable pub wait_for_fresh : ℕ → List (Option CacheEntry) → Option String
unfolding described
wait_for_fresh pre [] = none
wait_for_fresh pre (entry ∷ looks) =
    let later = wait_for_fresh pre looks in
    if not (is_blank (described entry)) && ltb pre (written_at entry)
    then some (described entry)
    else later

-- One leg of a cycle: the cache before it, whether the robot takes the request, and the looks.
pub record Leg : Type 0 where
  pub before : Option CacheEntry
  pub dispatched : Bool
  pub looks : List (Option CacheEntry)

-- What a leg gives, and its error.
unfoldable pub take_leg : String → String → Leg → Option String × List String
unfolding wait_for_fresh
take_leg refused missed leg =
    if leg.dispatched
    then elim (wait_for_fresh (written_at leg.before) leg.looks) [
      | none ↦ (none, missed ∷ [])
      | some text ↦ (some text, [])
    ]
    else (none, refused ∷ [])

abbrev text_or_empty : Option String → String
text_or_empty none = ""
text_or_empty (some s) = s

-- `_run_one_cycle`: its record. The entry of a picture is marked as a security capture, which the
-- model of the cache leaves out.
unfoldable pub run_one_cycle : String → String → Leg → Leg → Cycle
unfolding take_leg
run_one_cycle ts id photo audio =
    let p = take_leg "photo_dispatch_failed" "photo_poll_miss" photo in
    let a = take_leg "audio_capture_pending" "audio_poll_miss" audio in
    record {
      ts = ts;
      device = id;
      photo_desc = text_or_empty p.0;
      audio_transcript = a.0;
      errors = p.1 ++ a.1;
    }

-- A cycle, for a ring of the given size.
unfoldable pub capture : ℕ → String → String → Leg → Leg → SecurityCycle → SecurityCycle
unfolding run_one_cycle
capture ring_buffer_size ts id photo audio w = record w {
  recent_cycles = deque_append ring_buffer_size w.recent_cycles (run_one_cycle ts id photo audio);
}

-- `get_recent_cycles`
unfoldable pub get_recent_cycles : Option ℕ → SecurityCycle → List Cycle
get_recent_cycles none w = reverse w.recent_cycles
get_recent_cycles (some limit) w = take limit (reverse w.recent_cycles)
