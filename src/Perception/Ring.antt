-- ===== src/Perception/Ring.antt =====
-- The bounded per-device history of the event bus against the full history.
use mathlib.Core.List.{append-nil, append_assoc}
use dotty_stackchan.Prelude.{
  ℕ, String, ◌≡◌, refl, sym, ap, Bool, false, Option, List, [], ◌∷◌, ◌++◌, reverse, arith, ◌==◌,
  eq_iff, if◌then◌else◌, keep, keep-append, last_n, deque_append, deque_append-last_n, Bool-cases,
  inl, inr, drop-nil, ◌-◌,
}
use dotty_stackchan.Dict.{get_or-insert, lookup, get_or}
use dotty_stackchan.Perception.Types.{Event, State, Limits, init}
use dotty_stackchan.Perception.Bus.{is_anonymous, limited, broadcast, broadcast_all, get_recent}

abbrev pub from_device : String → Event → Bool
from_device id e = e.device_id == id

-- The ring of a device after one broadcast.
ring-broadcast :
    (l : Limits) (e : Event) (s : State) (id : String)
    → is_anonymous id ≡ false
    → get_or id [] (broadcast l e s).recent ≡ (
        if from_device id e
        then deque_append l.recent_max (get_or id [] s.recent) e
        else get_or id [] s.recent)
unfolding broadcast
ring-broadcast l e s id h = ground (
  arith,
  eq_iff e.device_id id,
  get_or-insert e.device_id id (deque_append l.recent_max (get_or e.device_id [] s.recent) e) []
      s.recent,
)

module _ (l : Limits) (id : String) (known : is_anonymous id ≡ false) where
  ring_step :
      (e : Event) (s : State) (past : List Event)
      → get_or id [] s.recent ≡ last_n l.recent_max (keep (from_device id) past)
      → get_or id [] (broadcast l e s).recent
        ≡ last_n l.recent_max (keep (from_device id) (past ++ e ∷ []))
  ring_step e s past h = elim (Bool-cases (from_device id e)) [
    | inl mine ↦
        rw
          (ring-broadcast l e s id known, mine, h, keep-append (from_device id) past (e ∷ []), mine)
          (deque_append-last_n l.recent_max (keep (from_device id) past) e)
    | inr other ↦
        rw
          (
            ring-broadcast l e s id known,
            other,
            h,
            keep-append (from_device id) past (e ∷ []),
            other,
            append-nil,
          )
          refl
  ]

  ring_run :
      (es past : List Event) (s : State)
      → get_or id [] s.recent ≡ last_n l.recent_max (keep (from_device id) past)
      → get_or id [] (broadcast_all l es s).recent
        ≡ last_n l.recent_max (keep (from_device id) (past ++ es))
  unfolding broadcast_all
  ring_run [] past s h = rw append-nil h
  ring_run (e ∷ es) past s h =
      rw (← append_assoc past (e ∷ []) es)
        (ring_run es (past ++ e ∷ []) (broadcast l e s) (ring_step e s past h))

-- After any broadcasts, the recent events of a named device are the newest `recent_max` of the
-- events that it sent, newest first, cut at the limit.
pub get_recent-broadcast_all :
    (l : Limits) (es : List Event) (id : String) (limit : Option ℕ)
    → is_anonymous id ≡ false
    → get_recent id limit (broadcast_all l es init)
      ≡ limited limit (reverse (last_n l.recent_max (keep (from_device id) es)))
unfolding get_recent get_or lookup last_n
get_recent-broadcast_all l es id limit known =
    ap (λ r. limited limit (reverse r)) (ring_run l id known es [] init (start l.recent_max))
  where
    start : (m : ℕ) → get_or id [] [] ≡ last_n m (keep (from_device id) [])
    start m = sym (drop-nil (0 - m))
