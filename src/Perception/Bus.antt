-- ===== src/Perception/Bus.antt =====
-- The event bus of dotty-behaviour/perception/state.py, and the route that feeds it
-- (dotty-behaviour/routes/perception.py).
use dotty_stackchan.Prelude.{
  ℕ, ◌+◌, String, Bool, ◌&&◌, ◌||◌, Option, none, some, List, [], ◌∷◌, ◌++◌, map, reverse, ◌==◌,
  if◌then◌else◌, ltb, leb, nat_eq, length, take, is_blank, deque_append,
}
use dotty_stackchan.Dict.{get_or, insert}
use dotty_stackchan.Perception.Types.{Event, Queue, State, Limits}
use dotty_stackchan.Perception.Update.{Outcome, done, attribute_error, update_state}

-- `subscribe`: the new queue's identity, and the state with it registered.
unfoldable pub subscribe : State → ℕ × State
subscribe s = (
  s.next_queue,
  record s {
    listeners = s.listeners ++ record { id = s.next_queue; items = [] } ∷ [];
    next_queue = s.next_queue + 1;
  },
)

-- `self._listeners.remove(q)`: the first queue of that identity.
unfoldable pub remove_queue : ℕ → List Queue → List Queue
remove_queue id [] = []
remove_queue id (q ∷ qs) = let rest = remove_queue id qs in if nat_eq q.id id then qs else q ∷ rest

unfoldable pub unsubscribe : ℕ → State → State
unfolding remove_queue
unsubscribe id s = record s { listeners = remove_queue id s.listeners }

-- `listener_count`
unfoldable pub listener_count : State → ℕ
listener_count s = length s.listeners

-- `asyncio.Queue.full`: a bound of 0 means that there is none.
abbrev pub is_full : ℕ → Queue → Bool
is_full queue_max q = ltb 0 queue_max && leb queue_max (length q.items)

-- `put_nowait`, with `QueueFull` caught: a full queue drops the event.
unfoldable pub offer : ℕ → Event → Queue → Queue
offer queue_max e q = if is_full queue_max q then q else record q { items = q.items ++ e ∷ [] }

abbrev pub is_anonymous : String → Bool
is_anonymous device_id = is_blank device_id || device_id == "unknown"

-- `_recent_append`
unfoldable pub recent_append : Limits → Event → State → State
recent_append l e s = if is_anonymous e.device_id then s else record s {
  recent =
      insert e.device_id (deque_append l.recent_max (get_or e.device_id [] s.recent) e) s.recent;
}

unfoldable pub broadcast : Limits → Event → State → State
unfolding recent_append offer
broadcast l e s =
    let t = recent_append l e s in record t { listeners = map (offer l.queue_max e) t.listeners }

-- `items[:limit]`
abbrev pub limited {ℓ} : {A : Type ℓ} → Option ℕ → List A → List A
limited none xs = xs
limited (some n) xs = take n xs

unfoldable pub get_recent : String → Option ℕ → State → List Event
get_recent device_id limit s = limited limit (reverse (get_or device_id [] s.recent))

-- `perception_event`: where `update_state` raises, the event reaches no subscriber.
unfoldable pub perception_event : Limits → Event → State → State × Outcome
perception_event l e s =
    let (t, outcome) = update_state e.device_id e.name e.payload e.ts s in
    elim outcome [ done ↦ (broadcast l e t, done) | attribute_error ↦ (t, attribute_error) ]

-- The events of a session, one request after the other.
unfoldable pub feed : Limits → List Event → State → State
feed l [] s = s
feed l (e ∷ es) s = feed l es (perception_event l e s).0

unfoldable pub broadcast_all : Limits → List Event → State → State
broadcast_all l [] s = s
broadcast_all l (e ∷ es) s = broadcast_all l es (broadcast l e s)
