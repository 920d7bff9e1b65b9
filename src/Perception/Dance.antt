-- ===== src/Perception/Dance.antt =====
-- Whether a device dances, against the history of its events.
use dotty_stackchan.Prelude.{
  String, ◌≡◌, refl, Bool, true, false, Option, none, some, List, arith, ◌==◌, if◌then◌else◌,
  is_blank, to_lower,
}
use dotty_stackchan.Dict.{get_or, lookup}
use dotty_stackchan.Perception.Types.{init, Event, Device, is_set, Limits}
use dotty_stackchan.Perception.Update.{
  is_dance_active, stripped_text, update_device, Kind, kind_of, apply_event, face_detected,
  state_changed, dance_started, dance_ended,
}
use dotty_stackchan.Perception.Bus.{feed}
use dotty_stackchan.Perception.History.{or_else, latest, latest-feed}

-- What an event says of dancing: `some true` where one starts, `some false` where it ends.
abbrev state_signal : Option String → Option Bool
state_signal none = none
state_signal (some s) =
    let new_state = to_lower s in if is_blank new_state then none else some (new_state == "dance")

abbrev pub dance_signal : Kind → Event → Option Bool
dance_signal dance_started e = some true
dance_signal dance_ended e = some false
dance_signal state_changed e = state_signal (stripped_text (lookup "state" e.payload))
dance_signal _ e = none

dance_apply :
    (k : Kind) (e : Event) (d : Device)
    → is_set (apply_event k e.payload e.ts d).0.dance_active
      ≡ or_else (is_set d.dance_active) (dance_signal k e)
unfolding apply_event
dance_apply face_detected e d = refl
dance_apply state_changed e d = ground arith
dance_apply _ e d = ground arith

dance_update :
    (e : Event) (d : Device)
    → is_set (update_device e.name e.payload e.ts d).0.dance_active
      ≡ or_else (is_set d.dance_active) (dance_signal (kind_of e.name) e)
unfolding update_device
dance_update e d =
    dance_apply (kind_of e.name) e
      (record d { last_event_t = some e.ts; last_event_name = some e.name })

abbrev pub says_dance : Event → Option Bool
says_dance e = dance_signal (kind_of e.name) e

-- After any events, malformed ones included, a device dances exactly if its newest event about
-- dancing started a dance: `dance_started` and a change of state to `dance` start one,
-- `dance_ended` and a change to any other state end it.
pub is_dance_active-feed :
    (l : Limits) (es : List Event) (id : String)
    → is_dance_active id (feed l es init) ≡ latest says_dance id es false
unfolding is_dance_active get_or lookup
is_dance_active-feed l es id =
    latest-feed (λ d. is_set d.dance_active) says_dance dance_update l es init id
