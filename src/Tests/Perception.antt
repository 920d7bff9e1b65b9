-- ===== src/Tests/Perception.antt =====
-- Runs of the perception model, and its theorems at concrete inputs.
use dotty_stackchan.Prelude.{
  ℕ, String, ◌≡◌, refl, false, none, some, List, [], ◌∷◌, map, reverse, arith, take, keep, last_n,
  deque_append, strip, to_lower,
}
use dotty_stackchan.Dict.{lookup, get_or, insert}
use dotty_stackchan.Perception.Types.{Value, Data, Event, no_device, State, init, Limits}
use dotty_stackchan.Perception.Update.{
  stripped_text, update_device, set_device, update_state, is_dance_active, get_fresh_face_id,
}
use dotty_stackchan.Perception.Bus.{
  subscribe, recent_append, broadcast, get_recent, perception_event, feed, broadcast_all,
}
use dotty_stackchan.Perception.Update.{kind_of, update_device}
use dotty_stackchan.Perception.Ring.{from_device, get_recent-broadcast_all}
use dotty_stackchan.Perception.Delivery.{filled, listeners-broadcast_all}
use dotty_stackchan.Perception.History.{latest}
use dotty_stackchan.Perception.Dance.{says_dance, is_dance_active-feed}
use dotty_stackchan.Perception.Faces.{says_face, fresh_face, get_fresh_face_id-feed}
use dotty_stackchan.Perception.Snapshot.{Gates, snapshot}
use dotty_stackchan.Perception.Views.{face_id-snapshot}
use dotty_stackchan.Perception.Waiters.{Waiters, enroll, dismiss}
use dotty_stackchan.Perception.Waiting.{HasNoEmpty, dismiss-enroll}

abbrev limits : Limits
limits = record { queue_max = 2; recent_max = 2 }

abbrev event : String → String → Data → ℕ → Event
event device_id name payload ts = record {
  device_id = device_id;
  name = name;
  payload = payload;
  ts = ts;
}

abbrev session : List Event
session =
    event "kitchen" "dance_started" [] 10
    ∷ event "kitchen" "face_recognized" (("identity", Value.text " hudson ") ∷ []) 20
    ∷ event "hall" "face_detected" [] 25
    ∷ event "kitchen" "face_lost" [] 30
    ∷ event "kitchen" "state_changed" (("state", Value.text "Idle") ∷ []) 40
    ∷ []

abbrev after_session : State
after_session = feed limits session init

dance_over : is_dance_active "kitchen" after_session ≡ false
unfolding is_dance_active feed perception_event update_state update_device kind_of stripped_text
    strip broadcast recent_append deque_append last_n get_or insert lookup to_lower
dance_over = refl

face_kept : get_fresh_face_id "kitchen" 30 45 after_session ≡ some "hudson"
unfolding get_fresh_face_id feed perception_event update_state update_device kind_of stripped_text
    strip broadcast recent_append deque_append last_n get_or insert lookup to_lower
face_kept = refl

get_recent-broadcast_all_example :
    get_recent "kitchen" (some 1) (broadcast_all limits session init)
    ≡ take 1 (reverse (last_n 2 (keep (from_device "kitchen") session)))
get_recent-broadcast_all_example = get_recent-broadcast_all limits session "kitchen" (some 1) refl

listeners-broadcast_all_example :
    (broadcast_all limits session (subscribe init).1).listeners
    ≡ map (filled 2 session) (subscribe init).1.listeners
listeners-broadcast_all_example =
    listeners-broadcast_all limits session (subscribe init).1 (omega arith)

is_dance_active-feed_example :
    is_dance_active "kitchen" after_session ≡ latest says_dance "kitchen" session false
is_dance_active-feed_example = is_dance_active-feed limits session "kitchen"

get_fresh_face_id-feed_example :
    get_fresh_face_id "kitchen" 30 45 after_session
    ≡ fresh_face 30 45 (latest says_face "kitchen" session (none, none))
get_fresh_face_id-feed_example = get_fresh_face_id-feed limits session "kitchen" 30 45

abbrev gates : Gates
gates = record { vision = 60; audio = 120; scene = 600; face_identity = 30 }

abbrev known_state : State
known_state =
    set_device "kitchen"
      (record no_device {
        last_face_id = some "hudson";
        last_face_recognized_t = some 20;
        face_mood = some "happy";
        face_mood_t = some 20;
      })
      init

face_id-snapshot_example :
    (snapshot gates 45 "kitchen" known_state).face_id
    ≡ get_fresh_face_id "kitchen" 30 45 known_state
unfolding get_or insert lookup
face_id-snapshot_example = face_id-snapshot gates 45 "kitchen" known_state refl (λ p. ground arith)

abbrev polled : Waiters
polled = ("hall", 3 ∷ []) ∷ []

polled-HasNoEmpty : HasNoEmpty polled
unfolding lookup
polled-HasNoEmpty = record { full = λ id p. ground arith }

dismiss-enroll_example :
    lookup "hall" (dismiss "kitchen" 7 (enroll "kitchen" 7 polled)) ≡ lookup "hall" polled
unfolding get_or lookup
dismiss-enroll_example = dismiss-enroll "kitchen" "hall" 7 polled polled-HasNoEmpty refl
