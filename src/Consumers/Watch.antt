-- ===== src/Consumers/Watch.antt =====
-- Which devices are watched, against the history of the events.
use dotty_stackchan.Prelude.{
  String, ◌≡◌, refl, ap, ◌∙◌, ◌⊎◌, inl, inr, Bool, true, false, not, ◌&&◌, ◌||◌, Option, none, some,
  List, [], ◌∷◌, map, arith, ◌==◌, eq_iff, if◌then◌else◌, Bool-cases, any, to_lower,
}
use dotty_stackchan.Dict.{Dict, lookup, lookup-insert, lookup-remove}
use dotty_stackchan.Perception.Types.{Event}
use dotty_stackchan.Perception.Update.{stripped_text}
use dotty_stackchan.Perception.Ring.{from_device}
use dotty_stackchan.Perception.History.{latest, or_else}
use dotty_stackchan.Consumers.Security.{
  SecurityCycle, new_security_cycle, is_running, start_device_timer, stop_device_timer,
  stop_all_timers, stop_each, change_watch, is_watched, on_state_changed, watch,
}

-- The event is a change to a state that is no text.
abbrev pub is_malformed : Event → Bool
is_malformed e =
    is_watched e
    && (elim (stripped_text (lookup "state" e.payload)) [ none ↦ true | some s ↦ false ])

-- What an event says of watching: `some true` where it changes to `security`, `some false` where it
-- changes to another state.
abbrev pub says_watch : Event → Option Bool
says_watch e =
    if is_watched e
    then elim (stripped_text (lookup "state" e.payload)) [
      | none ↦ none
      | some s ↦ some (to_lower s == "security")
    ]
    else none

is_running-start :
    (id j : String) (timers : Dict Bool)
    → is_running j (start_device_timer id timers) ≡ (id == j || is_running j timers)
unfolding start_device_timer
is_running-start id j timers = ground (arith, lookup-insert id j false timers, eq_iff id j)

is_running-stop :
    (id j : String) (timers : Dict Bool)
    → is_running j (stop_device_timer id timers).0 ≡ (not (id == j) && is_running j timers)
unfolding stop_device_timer
is_running-stop id j timers = ground (arith, lookup-remove id j timers)

-- One event, for a consumer that is alive.
record IsStep (e : Event) (id : String) (w : SecurityCycle) : Type 0 where
  alive : (on_state_changed e w).alive ≡ not (is_malformed e)
  running :
      is_malformed e ≡ false
      → is_running id (on_state_changed e w).device_timers ≡ (
          if from_device id e
          then or_else (is_running id w.device_timers) (says_watch e)
          else is_running id w.device_timers)

IsStep-alive : (e : Event) (id : String) (w : SecurityCycle) → w.alive ≡ true → IsStep e id w
unfolding on_state_changed change_watch
IsStep-alive e id w on = record {
  alive = ground (arith, on);
  running = λ fine. ground (
    arith,
    on,
    fine,
    is_running-start e.device_id id w.device_timers,
    is_running-stop e.device_id id w.device_timers,
  );
}

abbrev names : String → Dict Bool → Bool
names id timers = any (λ j. j == id) (map (λ entry. entry.0) timers)

running_named :
    (id : String) (timers : Dict Bool) → names id timers ≡ false → is_running id timers ≡ false
unfolding lookup
running_named id [] h = refl
running_named id ((j, done) ∷ timers) h = ground (arith, running_named id timers)

stopped-each :
    (ids : List String) (id : String) (timers : Dict Bool)
    → any (λ j. j == id) ids ≡ true ⊎ is_running id timers ≡ false
    → is_running id (stop_each ids timers) ≡ false
stopped-each [] id timers h = ground (arith, h)
stopped-each (j ∷ ids) id timers h =
    stopped-each ids id (stop_device_timer j timers).0
      (ground (arith, h, is_running-stop j id timers))

is_running-stop_all :
    (id : String) (timers : Dict Bool) → is_running id (stop_all_timers timers) ≡ false
unfolding stop_all_timers
is_running-stop_all id timers = elim (Bool-cases (names id timers)) [
  | inl named ↦ stopped-each (map (λ entry. entry.0) timers) id timers (inl named)
  | inr new ↦
      stopped-each (map (λ entry. entry.0) timers) id timers (inr (running_named id timers new))
]

stopped-malformed :
    (e : Event) (id : String) (w : SecurityCycle)
    → w.alive ≡ true
    → is_malformed e ≡ true
    → is_running id (on_state_changed e w).device_timers ≡ false
unfolding on_state_changed change_watch
stopped-malformed e id w on bad = ground (arith, on, bad, is_running-stop_all id w.device_timers)

on_state_changed-ended :
    (e : Event) (w : SecurityCycle) → w.alive ≡ false → on_state_changed e w ≡ w
unfolding on_state_changed
on_state_changed-ended e w off = ground (arith, off)

watch_ended : (es : List Event) (w : SecurityCycle) → w.alive ≡ false → watch es w ≡ w
unfolding watch
watch_ended [] w off = refl
watch_ended (e ∷ es) w off = ap (watch es) (on_state_changed-ended e w off) ∙ watch_ended es w off

watched_from :
    (es : List Event) (id : String) (w : SecurityCycle)
    → w.alive ≡ true
    → is_running id (watch es w).device_timers ≡ (
        if any is_malformed es
        then false
        else latest says_watch id es (is_running id w.device_timers))
unfolding watch
watched_from [] id w on = refl
watched_from (e ∷ es) id w on =
    let s = IsStep-alive e id w on in
    elim (Bool-cases (is_malformed e)) [
      | inl bad ↦ rw bad (
          ap (λ v. is_running id v.device_timers)
            (watch_ended es (on_state_changed e w) (ground (arith, s.alive, bad)))
          ∙ stopped-malformed e id w on bad)
      | inr fine ↦
          watched_from es id (on_state_changed e w) (ground (arith, s.alive, fine))
          ∙ rw (fine, s.running fine) refl
    ]

-- After any events a device is watched exactly if its newest change of state is one to `security`,
-- for as long as no change of state of a named device came without a text; after one that did,
-- nothing is watched.
pub is_running-watch :
    (es : List Event) (id : String)
    → is_running id (watch es new_security_cycle).device_timers
      ≡ (if any is_malformed es then false else latest says_watch id es false)
unfolding lookup
is_running-watch es id = watched_from es id new_security_cycle refl
